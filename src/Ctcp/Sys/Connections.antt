-- ===== src/Ctcp/Sys/Connections.antt =====
-- The list of connections in ctcp_sys_internal.c: `conn_add`, `conn_free` and `delete_all_connections`, on a heap. The head
-- is config->connections on a server and config->sconn on a client. The output queues that `conn_free` frees and the pipes
-- that it closes are left out.
mod Chain
mod Deleted
mod Examples
use cs.Base.{
  ℕ, zero, suc, ◌+◌, Bool, ◌==◌, if◌then◌else◌, Option, none, some, Run, done, fault, ◌>>=◌, deref,
}

-- What `prev` holds: null, the address of a local variable of `conn_add`, or that of a connection's `next`.
pub data Prev : Type 0 where
  null_prev : Prev
  local_variable : Prev
  next_of : ℕ → Prev

-- The links of conn_t.
pub record Cell : Type 0 where
  pub next : ℕ
  pub prev : Prev
  pub delete_me : Bool

abbrev pub Cells : Type 0
Cells = ℕ → Option Cell

pub record Connections : Type 0 where
  pub head : ℕ
  pub cells : Cells

abbrev pub set : Cells → ℕ → Option Cell → Cells
set h a c x = if x == a then c else h x

abbrev pub cell : Cells → ℕ → Run Cell
cell h a = if a == 0 then fault else deref (h a)

-- conn->prev = prev, unless the connection is null.
unfoldable pub relink_prev : Cells → ℕ → Prev → Run Cells
relink_prev h conn prev =
    if conn == 0
    then done h
    else (do c ← cell h conn; done (set h conn (some (record c { prev = prev }))))

unfoldable pub conn_add : Connections → ℕ → Run Connections
unfolding relink_prev
conn_add s conn = if conn == s.head then done s else do
  c ← cell s.cells conn
  h ←
      relink_prev (set s.cells conn (some (record c { prev = local_variable; next = s.head })))
        s.head (next_of conn)
  done (record { head = conn; cells = h })

-- *prev = next. The local variable is gone.
unfoldable pub store_next : Cells → Prev → ℕ → Run Cells
store_next h null_prev next = done h
store_next h local_variable next = fault
store_next h (next_of p) next = do c ← cell h p; done (set h p (some (record c { next = next })))

unfoldable pub conn_free : Connections → ℕ → Run Connections
unfolding relink_prev store_next
conn_free s conn = do
  c ← cell s.cells conn
  h ← relink_prev s.cells c.next c.prev
  h ← store_next h c.prev c.next
  done (record { head = if conn == s.head then 0 else s.head; cells = set h conn none })

-- The loop, for at most so many connections; none where the fuel ran out.
unfoldable pub delete_loop : ℕ → Connections → ℕ → Run (Option Connections)
delete_loop zero s conn = done none
delete_loop (suc n) s conn = if conn == 0 then done (some s) else do
  c ← cell s.cells conn
  s ← (if c.delete_me then conn_free s conn else done s)
  delete_loop n s c.next

unfoldable pub delete_all_connections : ℕ → Connections → Run (Option Connections)
unfolding delete_loop
delete_all_connections n s = delete_loop n s s.head
