-- ===== src/Router/Table.antt =====
-- The routing table from its file, `sr_load_rt` of sr_rt.c, and its check against the interfaces,
-- `sr_verify_routing_table` of sr_main.c. `sscanf` and `inet_aton` are arguments.
pub mod Loaded
pub mod Verified
use cs.Base.{
  ℕ, zero, suc, ◌+◌, Bool, true, false, ◌==◌, ◌&&◌, List, [], ◌∷◌, length, ltb, leb, if◌then◌else◌,
  Option, none, some, Run, done, fault, ◌>>=◌, ◌>>◌, require,
}
use cs.Router.State.{Iface, Rt, Instance}
use cs.Router.Interfaces.{find_name, same_name}
use cs.Router.Routes.{sr_add_rt_entry}

-- The four arrays that `sscanf` fills, as strings.
pub record Fields : Type 0 where
  pub dest : List ℕ
  pub gw : List ℕ
  pub mask : List ℕ
  pub iface : List ℕ

-- The C library: the fields that `sscanf(line, "%s %s %s %s", ...)` finds, at most four, and the address
-- that `inet_aton` reads.
pub record Library : Type 0 where
  pub scan : List ℕ → List (List ℕ)
  pub aton : List ℕ → Option ℕ

-- An array of 32 characters takes a string and its terminator.
abbrev pub fits_array : List ℕ → Bool
fits_array s = ltb (length s) 32

-- A field that is not found keeps what it held.
abbrev pub assign : Fields → List (List ℕ) → Run Fields
assign f [] = done f
assign f (a ∷ []) = do require (fits_array a); done (record f { dest = a })
assign f (a ∷ b ∷ []) = do
  require (fits_array a && fits_array b)
  done (record f { dest = a; gw = b })
assign f (a ∷ b ∷ c ∷ []) = do
  require (fits_array a && (fits_array b && fits_array c))
  done (record f { dest = a; gw = b; mask = c })
assign f (a ∷ b ∷ c ∷ d ∷ rest) = do
  require (fits_array a && (fits_array b && (fits_array c && fits_array d)))
  done (record { dest = a; gw = b; mask = c; iface = d })

-- The table is cleared before the first entry.
abbrev pub cleared_once : Bool → Instance → Instance
cleared_once loaded sr = if loaded then sr else record sr { routing_table = [] }

-- The addresses of an entry, if all three can be read.
abbrev pub all_three : Option ℕ → Option ℕ → Option ℕ → Option (ℕ × ℕ × ℕ)
all_three none gw mask = none
all_three (some d) none mask = none
all_three (some d) (some g) none = none
all_three (some d) (some g) (some m) = some (d, g, m)

abbrev pub addresses : Library → Fields → Option (ℕ × ℕ × ℕ)
addresses c f = all_three (c.aton f.dest) (c.aton f.gw) (c.aton f.mask)

abbrev pub add_entry : Bool → Instance → Fields → ℕ × ℕ × ℕ → Instance
add_entry loaded sr f (dest, gw, mask) =
    sr_add_rt_entry (cleared_once loaded sr) dest gw mask f.iface

-- An address that cannot be read ends the loop.
abbrev pub if_read :
    Instance → Option (ℕ × ℕ × ℕ) → (ℕ × ℕ × ℕ → Run (Instance × Bool)) → Run (Instance × Bool)
if_read sr none k = done (sr, false)
if_read sr (some a) k = k a

-- The loop over the lines; the result is whether the whole file was read.
unfoldable pub load_lines :
    Library → Bool → Instance → Fields → List (List ℕ) → Run (Instance × Bool)
load_lines c loaded sr f [] = done (sr, true)
load_lines c loaded sr f (line ∷ lines) = do
  f' ← assign f (c.scan line)
  if_read sr (addresses c f') (λ a. load_lines c true (add_entry loaded sr f' a) f' lines)

-- `junk` is what the arrays hold before the first line. No file is -1.
unfoldable pub sr_load_rt :
    Library → Fields → Instance → Option (List (List ℕ)) → Run (Instance × Bool)
unfolding load_lines
sr_load_rt c junk sr none = done (sr, false)
sr_load_rt c junk sr (some lines) = load_lines c false sr junk lines

abbrev pub one_more_if : Option Iface → ℕ → ℕ
one_more_if none ret = ret + 1
one_more_if (some i) ret = ret

-- The number of routes whose interface is not in the list.
unfoldable pub missing : List Iface → List Rt → ℕ
missing ifs [] = 0
missing ifs (r ∷ rs) = one_more_if (find_name r.interface ifs) (missing ifs rs)

abbrev pub no_members {ℓ} : {A : Type ℓ} → List A → Bool
no_members [] = true
no_members (x ∷ xs) = false

unfoldable pub sr_verify_routing_table : Instance → ℕ
unfolding missing
sr_verify_routing_table sr =
    if no_members sr.if_list
    then 999
    else if no_members sr.routing_table
    then 999
    else missing sr.if_list sr.routing_table
