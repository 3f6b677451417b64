-- ===== src/Ctcp/Sys/Convert/Agree.antt =====
-- Blocks of memory that agree byte by byte, and numbers that are stored and taken out again.
use mathlib.Core.Path.{fun_ext, subst}
use cs.Base.{
  ℕ, zero, suc, ◌+◌, ◌-◌, ◌*◌, ◌%◌, ◌^◌, ◌≤◌, ◌<◌, ◌≡◌, ap, sym, ◌==◌, false, le→leb, arith, done,
  Bool-cases, ==_iff, ◌≢◌, inl, inr,
}
use cs.Bytes.{Buf, patch, byte_of, htonl}
pub use cs.Bytes.Patch.{patch_in, patch_out}
use cs.Ctcp.Sys.Convert.{copy_data}

-- The four bytes from an offset.
pub record Same (f g : ℕ → ℕ) (off : ℕ) : Type 0 where
  pub s0 : f off ≡ g off
  pub s1 : f (off + 1) ≡ g (off + 1)
  pub s2 : f (off + 2) ≡ g (off + 2)
  pub s3 : f (off + 3) ≡ g (off + 3)

module _ (f g : ℕ → ℕ) (a : Same f g 0) (b : Same f g 4) (c : Same f g 8) (d : Same f g 12)
    (e : Same f g 16) (rest : (j : ℕ) → f (20 + j) ≡ g (20 + j)) where
  far : (i : ℕ) → 20 ≤ i → f i ≡ g i
  far i h = let k : 20 + (i - 20) ≡ i = omega arith in rw k at (rest (i - 20))

  same_at : (i : ℕ) → f i ≡ g i
  same_at zero = a.s0
  same_at (suc zero) = a.s1
  same_at (suc (suc zero)) = a.s2
  same_at (suc (suc (suc zero))) = a.s3
  same_at (suc (suc (suc (suc i)))) = low i
    where
      low : (i : ℕ) → f (suc (suc (suc (suc i)))) ≡ g (suc (suc (suc (suc i))))
      low zero = b.s0
      low (suc zero) = b.s1
      low (suc (suc zero)) = b.s2
      low (suc (suc (suc zero))) = b.s3
      low (suc (suc (suc (suc zero)))) = c.s0
      low (suc (suc (suc (suc (suc zero))))) = c.s1
      low (suc (suc (suc (suc (suc (suc zero)))))) = c.s2
      low (suc (suc (suc (suc (suc (suc (suc zero))))))) = c.s3
      low (suc (suc (suc (suc (suc (suc (suc (suc zero)))))))) = d.s0
      low (suc (suc (suc (suc (suc (suc (suc (suc (suc zero))))))))) = d.s1
      low (suc (suc (suc (suc (suc (suc (suc (suc (suc (suc zero)))))))))) = d.s2
      low (suc (suc (suc (suc (suc (suc (suc (suc (suc (suc (suc zero))))))))))) = d.s3
      low (suc (suc (suc (suc (suc (suc (suc (suc (suc (suc (suc (suc zero)))))))))))) = e.s0
      low (suc (suc (suc (suc (suc (suc (suc (suc (suc (suc (suc (suc (suc zero))))))))))))) = e.s1
      low (suc (suc (suc (suc (suc (suc (suc (suc (suc (suc (suc (suc (suc (suc zero)))))))))))))) =
          e.s2
      low
            (suc (
              suc (
                suc
                  (suc (suc (suc (suc (suc (suc (suc (suc (suc (suc (suc (suc zero))))))))))))))) =
          e.s3
      low
            (suc (
              suc (
                suc (
                  suc
                    (suc (suc (suc (suc (suc (suc (suc (suc (suc (suc (suc (suc i)))))))))))))))) =
          far _ (omega arith)

  pub same_bytes : f ≡ g
  same_bytes = fun_ext same_at

-- What was added modulo 2 ^ 32 is taken off again.
pub relative : (w i : ℕ) → w < 2 ^ 32 → i < 2 ^ 32 → ((w + i) % 2 ^ 32 + 2 ^ 32 - i) % 2 ^ 32 ≡ w
relative w i h k = omega arith

pub half_bytes : (s : ℕ) → s < 2 ^ 16 → byte_of s 0 + byte_of s 1 * 256 ≡ s
half_bytes s h = omega arith

-- The checksum that the sender wrote comes out again.
pub difference :
    (t c s : ℕ)
    → t < 2 ^ 16
    → c < 2 ^ 16
    → s < 2 ^ 16
    → (c + (t + 2 ^ 16 - (t + (c + 2 ^ 16 - s)) % 2 ^ 16)) % 2 ^ 16 ≡ s
difference t c s h k l = omega arith

-- A number in network order, turned round twice, has the bytes that it had.
pub turned :
    (f : ℕ → ℕ) (off : ℕ)
    → ((i : ℕ) → f i < 256)
    → let v =
        htonl (htonl (f off + f (off + 1) * 256 + f (off + 2) * 2 ^ 16 + f (off + 3) * 2 ^ 24)) in
      (byte_of v 0 ≡ f off)
      × (byte_of v 1 ≡ f (off + 1))
      × (byte_of v 2 ≡ f (off + 2))
      × (byte_of v 3 ≡ f (off + 3))
turned f off h =
    let a = h off in
    let b = h (off + 1) in
    let c = h (off + 2) in
    let d = h (off + 3) in (omega arith, omega arith, omega arith, omega arith)

patch_none : (h : ℕ → ℕ) (off : ℕ) (new : ℕ → ℕ) → patch h off 0 new ≡ h
patch_none h off new = fun_ext λ i. ground arith

positive : (n : ℕ) → (suc n == 0) ≡ false
positive n = ground arith

-- A field that is written over and set back.
pub patch_back :
    (h : ℕ → ℕ) (off n : ℕ) (v w : ℕ → ℕ)
    → patch (patch (patch h off n v) off n w) off n v ≡ patch h off n v
patch_back h off n v w = fun_ext λ i. ground arith

elsewhere : (h v w : ℕ → ℕ) (i : ℕ) → i ≢ 18 → i ≢ 19 → patch (patch h 18 2 w) 18 2 v i ≡ h i
elsewhere h v w i a b = ground arith

sum_at : (h v w : ℕ → ℕ) → v 0 ≡ h 18 → v 1 ≡ h 19 → (i : ℕ) → patch (patch h 18 2 w) 18 2 v i ≡ h i
sum_at h v w e k i = elim (Bool-cases (i == 18)) [
  | inl a ↦ subst (λ (q : ℕ). patch (patch h 18 2 w) 18 2 v q ≡ h q) (sym ((==_iff i 18).0 a)) e
  | inr a ↦ elim (Bool-cases (i == 19)) [
    | inl b ↦ subst (λ (q : ℕ). patch (patch h 18 2 w) 18 2 v q ≡ h q) (sym ((==_iff i 19).0 b)) k
    | inr b ↦ elsewhere h v w i (ground arith) (ground arith)
  ]
]

-- The checksum of a segment, cleared and put back.
pub patch_sum : (h v w : ℕ → ℕ) → v 0 ≡ h 18 → v 1 ≡ h 19 → patch (patch h 18 2 w) 18 2 v ≡ h
patch_sum h v w e k = fun_ext λ i. sum_at h v w e k i

-- Copying data, also none.
pub copy_data_lem :
    (dst src : Buf) (d s n : ℕ)
    → d + n ≤ dst.len
    → s + n ≤ src.len
    → copy_data dst d src s n ≡ done (record dst { at = patch dst.at d n (λ i. src.at (s + i)) })
copy_data_lem dst src d s zero h k =
    ap (λ (f : ℕ → ℕ). done (record dst { at = f }))
      (sym (patch_none dst.at d (λ i. src.at (s + i))))
copy_data_lem dst src d s (suc n) h k =
    rw (positive n, le→leb (d + suc n) dst.len h, le→leb (s + suc n) src.len k)
