-- ===== src/Bytes/Patch.antt =====
-- A block of memory after a write, inside and outside of what was written.
use cs.Base.{ℕ, ◌+◌, ◌-◌, ◌≤◌, ◌<◌, ◌≡◌, ap, arith}
use cs.Bytes.{patch}

pub patch_in : (h : ℕ → ℕ) (off n : ℕ) (f : ℕ → ℕ) (j : ℕ) → j < n → patch h off n f (off + j) ≡ f j
patch_in h off n f j l = let e : off + j - off ≡ j = omega arith in ground (arith, ap f e)

pub patch_out : (h : ℕ → ℕ) (off n : ℕ) (f : ℕ → ℕ) (i : ℕ) → off + n ≤ i → patch h off n f i ≡ h i
patch_out h off n f i l = ground arith

pub patch_before : (h : ℕ → ℕ) (off n : ℕ) (f : ℕ → ℕ) (i : ℕ) → i < off → patch h off n f i ≡ h i
patch_before h off n f i l = ground arith
