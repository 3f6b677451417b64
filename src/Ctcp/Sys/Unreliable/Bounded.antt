-- ===== src/Ctcp/Sys/Unreliable/Bounded.antt =====
-- What the faults of `conn_send` may do.
use cs.Base.{ℕ, ◌+◌, ◌≤◌, ◌≡◌, ◌⊎◌, Bool, true, false, List}
use cs.Bytes.{Buf, patch}
use cs.Ctcp.Sys.Unreliable.{Wire, Process}
use cs.Ctcp.Sys.Unreliable.Sent.{AllSent, senders, returning, one}

-- A delayed segment finds a process that sends it: none is delayed, or no fork fails.
abbrev pub Spawns : Wire → Type 0
Spawns w = (w.faults.delay ≡ 0) ⊎ ((level : ℕ) → w.forks_late level ≡ true)

module _ (w : Wire) (copy : Buf) (len : ℕ) (low : 20 ≤ len) (high : len ≤ 8000) where
  -- The processes in place of one, of which one sends if it finds a process. It returns when it was not forked; when there are no delays, no other does.
  abbrev IsSplit : Bool → List Process → Type 0
  IsSplit forked ps =
      AllSent w.link copy len ps
      × (senders ps ≤ 1)
      × (Spawns w → 1 ≤ senders ps)
      × (forked ≡ false → returning ps ≡ 1)
      × (w.faults.delay ≡ 0 → returning ps ≡ one forked)

  -- What comes of a segment that is not dropped.
  abbrev IsSpread : List Process → Type 0
  IsSpread ps =
      AllSent w.link copy len ps
      × (Spawns w → 1 ≤ senders ps)
      × (senders ps ≤ 2)
      × ((w.faults.duplicate ≡ 0) ⊎ (w.faults.delay ≡ 0) → returning ps ≡ 1)

-- The copy that is made of a segment.
abbrev pub copied : Buf → ℕ → Buf
copied segment len = record { len = len; at = patch (λ i. 0) 0 len (λ i. segment.at (0 + i)) }

-- The bounds on what the faults may do.
abbrev pub IsWithin : Wire → Buf → ℕ → List Process → Type 0
IsWithin w segment len ps =
    AllSent w.link (copied segment len) len ps
    × (senders ps ≤ 2)
    × (w.faults.drop ≡ 0 → Spawns w → 1 ≤ senders ps)
    × ((w.faults.duplicate ≡ 0) ⊎ (w.faults.delay ≡ 0) → returning ps ≡ 1)
