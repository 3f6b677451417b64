-- ===== src/Ctcp/Linked.antt =====
-- ctcp_linked_list.c: doubly linked lists on a heap. Nodes and list headers stand at addresses, in maps
-- of their own; `calloc` hands out the address that an operation takes as its last argument, null when
-- memory is short. An object is an address that the list never follows.
mod Cells
mod Links
mod Shape
mod Insert
pub mod After
mod Remove
pub mod Others
pub mod Walk
pub mod Examples
use cs.Base.{
  ℕ, ◌+◌, ◌-◌, ◌%◌, ◌^◌, Option, none, some, Run, done, fault, ◌==◌, if◌then◌else◌, zero, suc, true,
  false, Bool, ◌||◌,
}

-- struct ll_node
pub record Node : Type 0 where
  pub next : ℕ
  pub prev : ℕ
  pub object : ℕ

abbrev pub node : ℕ → ℕ → ℕ → Node
node q r o = record { next = q; prev = r; object = o }

-- struct linked_list
pub record LinkedList : Type 0 where
  pub head : ℕ
  pub tail : ℕ
  pub length : ℕ

pub record Store : Type 0 where
  pub nodes : ℕ → Option Node
  pub lists : ℕ → Option LinkedList

abbrev pub crash : {A : Type 0} → Store → Run (A × Store)
crash s = fault

abbrev pub null : ℕ
null = 0

unfoldable pub write : {A : Type 0} → (ℕ → Option A) → ℕ → Option A → ℕ → Option A
write h p c a = if a == p then c else h a

abbrev pub Cmd : Type 0 → Type 0
Cmd A = Store → Run (A × Store)

abbrev pub pure : {A : Type 0} → A → Cmd A
pure a s = done (a, s)

unfoldable pub and_then : {A B : Type 0} → Run (A × Store) → (A → Cmd B) → Run (B × Store)
and_then (done (a, t)) k = k a t
and_then fault k = fault

infixl 5 ◌>>=◌
infixr 5 ◌>>◌
abbrev pub ◌>>=◌ : {A B : Type 0} → Cmd A → (A → Cmd B) → Cmd B
(m >>= k) s = and_then (m s) k

abbrev pub ◌>>◌ : {A B : Type 0} → Cmd A → Cmd B → Cmd B
m >> n = m >>= λ _. n

-- What stands at an address; a fault at null and where nothing stands.
abbrev pub at : {A : Type 0} → (ℕ → Option A) → ℕ → Option A
at h p = if p == null then none else h p

unfoldable pub load : ℕ → Cmd Node
load p s = elim (at s.nodes p) [ none ↦ fault | some n ↦ done (n, s) ]

unfoldable pub store : ℕ → Option Node → Cmd (Unit {0})
store p c s = done (tt, record s { nodes = write s.nodes p c })

unfoldable pub set_next : ℕ → ℕ → Cmd (Unit {0})
set_next p q = do n ← load p; store p (some (record n { next = q }))

unfoldable pub set_prev : ℕ → ℕ → Cmd (Unit {0})
set_prev p q = do n ← load p; store p (some (record n { prev = q }))

unfoldable pub free : ℕ → Cmd (Unit {0})
free p = load p >> store p none

unfoldable pub header : ℕ → Cmd LinkedList
header l s = elim (at s.lists l) [ none ↦ fault | some d ↦ done (d, s) ]

unfoldable pub put_header : ℕ → Option LinkedList → Cmd (Unit {0})
put_header l c s = done (tt, record s { lists = write s.lists l c })

unfoldable pub set_head : ℕ → ℕ → Cmd (Unit {0})
set_head l p = do d ← header l; put_header l (some (record d { head = p }))

unfoldable pub set_tail : ℕ → ℕ → Cmd (Unit {0})
set_tail l p = do d ← header l; put_header l (some (record d { tail = p }))

-- An `unsigned int`.
unfoldable pub set_length : ℕ → (ℕ → ℕ) → Cmd (Unit {0})
set_length l f = do d ← header l; put_header l (some (record d { length = f d.length % 2 ^ 32 }))

abbrev pub grown : ℕ → ℕ
grown n = n + 1

abbrev pub shrunk : ℕ → ℕ
shrunk n = n + (2 ^ 32 - 1)

unfoldable pub ll_create : ℕ → Cmd ℕ
ll_create l =
    if l == null
    then crash
    else put_header l (some (record { head = null; tail = null; length = 0 })) >> pure l

unfoldable pub ll_create_node : ℕ → ℕ → Cmd ℕ
ll_create_node object p =
    if p == null then crash else store p (some (node null null object)) >> pure p

-- The two branches that link a node into an empty list and behind the last node.
unfoldable pub link_only : ℕ → ℕ → Cmd (Unit {0})
link_only l p = set_head l p >> set_tail l p

unfoldable pub link_back : ℕ → ℕ → Cmd (Unit {0})
link_back l p = do d ← header l; set_next d.tail p >> set_prev p d.tail >> set_tail l p

unfoldable pub link_front : ℕ → ℕ → Cmd (Unit {0})
link_front l p = do d ← header l; set_next p d.head >> set_prev d.head p >> set_head l p

unfoldable pub ll_add : ℕ → ℕ → ℕ → Cmd ℕ
ll_add l object fresh = if (l == null) || (object == null) then pure null else do
  p ← ll_create_node object fresh
  d ← header l
  (if d.head == null then link_only l p else link_back l p) >> set_length l grown >> pure p

unfoldable pub ll_add_front : ℕ → ℕ → ℕ → Cmd ℕ
ll_add_front l object fresh = if (l == null) || (object == null) then pure null else do
  p ← ll_create_node object fresh
  d ← header l
  (if d.head == null then link_only l p else link_front l p) >> set_length l grown >> pure p

unfoldable pub link_after : ℕ → ℕ → ℕ → Cmd (Unit {0})
link_after l at p = do
  n ← load at
  set_prev p at
      >> set_next p n.next
      >> (if n.next == null then pure tt else set_prev n.next p)
      >> set_next at p

unfoldable pub ll_add_after : ℕ → ℕ → ℕ → ℕ → Cmd ℕ
ll_add_after l at object fresh =
    if (l == null) || (at == null) || (object == null) then pure null else do
      p ← ll_create_node object fresh
      d ← header l
      link_after l at p
          >> (if at == d.tail then set_tail l p else pure tt)
          >> set_length l grown
          >> pure p

-- `list->head = node->next`, or `node->prev->next = node->next`.
unfoldable pub unlink_next : ℕ → ℕ → Cmd (Unit {0})
unlink_next l p = do
  d ← header l
  n ← load p
  if p == d.head then set_head l n.next else set_next n.prev n.next

unfoldable pub unlink_prev : ℕ → ℕ → Cmd (Unit {0})
unlink_prev l p = do
  d ← header l
  n ← load p
  if p == d.tail then set_tail l n.prev else set_prev n.next n.prev

unfoldable pub ll_remove : ℕ → ℕ → Cmd ℕ
ll_remove l p = if (l == null) || (p == null) then pure null else do
  n ← load p
  unlink_next l p >> unlink_prev l p >> free p >> set_length l shrunk >> pure n.object

-- The loops of `ll_find` and `ll_destroy`, on fuel: none left is a fault.
unfoldable pub find_from : ℕ → ℕ → ℕ → Cmd ℕ
find_from zero curr object s = fault
find_from (suc fuel) curr object s = elim (curr == null) [
  | true ↦ done (null, s)
  | false ↦ elim (at s.nodes curr) [
    | none ↦ fault
    | some n ↦ elim (n.object == object) [
      | true ↦ done (curr, s)
      | false ↦ find_from fuel n.next object s
    ]
  ]
]

unfoldable pub ll_find : ℕ → ℕ → ℕ → Cmd ℕ
ll_find fuel l object =
    if (l == null) || (object == null)
    then pure null
    else do d ← header l; find_from fuel d.head object

unfoldable pub free_from : ℕ → ℕ → Cmd (Unit {0})
free_from zero curr s = fault
free_from (suc fuel) curr s = elim (curr == null) [
  | true ↦ done (tt, s)
  | false ↦ elim (at s.nodes curr) [
    | none ↦ fault
    | some n ↦ free_from fuel n.next (record s { nodes = write s.nodes curr none })
  ]
]

unfoldable pub ll_destroy : ℕ → ℕ → Cmd (Unit {0})
ll_destroy fuel l =
    if l == null then pure tt else do d ← header l; free_from fuel d.head >> put_header l none

unfoldable pub ll_front : ℕ → Cmd ℕ
ll_front l = do d ← header l; pure d.head

unfoldable pub ll_back : ℕ → Cmd ℕ
ll_back l = do d ← header l; pure d.tail

unfoldable pub ll_length : ℕ → Cmd ℕ
ll_length l = do d ← header l; pure d.length
