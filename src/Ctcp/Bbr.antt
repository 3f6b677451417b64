-- ===== src/Ctcp/Bbr.antt =====
-- ctcp_bbr.h: the filter of bandwidths and the step of the state machine, without the gains and without
-- the product of bandwidth and time, which the code computes and never reads.
use cs.Base.{
  ℕ, zero, suc, ◌+◌, ◌*◌, ◌/◌, ◌<◌, ◌≡◌, refl, List, [], ◌∷◌, ◌==◌, ltb, if◌then◌else◌, arith,
  length, Run, done, fault, ◌>>=◌,
}
use cs.Ctcp.State.{Bbr}

abbrev pub filter_size : ℕ
filter_size = 10

-- `max` is the largest so far.
pub max_loop : List ℕ → ℕ → ℕ
max_loop [] max = max
max_loop (p ∷ ps) max = max_loop ps (if ltb max p then p else max)

pub maxfilter_bw : List ℕ → ℕ
unfolding max_loop
maxfilter_bw ps = max_loop ps 0

-- A store to element `i` of an array.
pub set_elem : List ℕ → ℕ → ℕ → Run (List ℕ)
set_elem [] i v = fault
set_elem (p ∷ ps) zero v = done (v ∷ ps)
set_elem (p ∷ ps) (suc i) v = elim (set_elem ps i v) [ done qs ↦ done (p ∷ qs) | fault ↦ fault ]

abbrev pub next_index : ℕ → ℕ
next_index i = if ltb (i + 1) filter_size then i + 1 else 0

-- `to_uint32` is the conversion of a `double` of this value to `uint32_t`.
module _ (to_uint32 : ℕ → ℕ) where
  unfoldable pub run_bbr_statemachine : Bbr → Bbr
  unfolding maxfilter_bw
  run_bbr_statemachine b =
      let max = maxfilter_bw b.bandwidths in
      let growing = ltb (to_uint32 (b.last_max * 5 / 4)) max in
      if b.state == 0 then record b { state = if growing then 0 else 1; last_max = max } else b

  -- A sample of the bandwidth, the step, and the place of the next sample.
  unfoldable pub add_sample : Bbr → ℕ → Run Bbr
  unfolding run_bbr_statemachine set_elem
  add_sample b bw = do
    filled ← set_elem b.bandwidths b.index bw
    let stepped = run_bbr_statemachine (record b { bandwidths = filled })
    done (record stepped { index = next_index b.index })

-- The filter with ten samples, and the place of the next among them.
pub record IsFilter (b : Bbr) : Type 0 where
  pub size : length b.bandwidths ≡ filter_size
  pub place : b.index < filter_size

length-set_elem :
    (ps : List ℕ) (i v : ℕ)
    → i < length ps
    → (qs : List ℕ) × (set_elem ps i v ≡ done qs) × (length qs ≡ length ps)
unfolding set_elem
length-set_elem [] i v h = absurd (omega arith)
length-set_elem (p ∷ ps) zero v h = (v ∷ ps, refl, refl)
length-set_elem (p ∷ ps) (suc i) v h =
    let (qs, e, k) = length-set_elem ps i v (omega arith) in (p ∷ qs, rw e, omega (arith, k))

machine-same :
    (to_uint32 : ℕ → ℕ) (b : Bbr) → (run_bbr_statemachine to_uint32 b).bandwidths ≡ b.bandwidths
unfolding run_bbr_statemachine
machine-same to_uint32 b = ground arith

-- A sample always finds its place in the filter.
pub add_sample-IsFilter :
    (to_uint32 : ℕ → ℕ) (b : Bbr) (bw : ℕ)
    → IsFilter b
    → (c : Bbr) × (add_sample to_uint32 b bw ≡ done c) × IsFilter c
unfolding add_sample ◌>>=◌
add_sample-IsFilter to_uint32 b bw f =
    let (qs, e, k) = length-set_elem b.bandwidths b.index bw (omega (arith, f.size, f.place)) in
    (
      record (run_bbr_statemachine to_uint32 (record b { bandwidths = qs })) {
        index = next_index b.index;
      },
      rw e,
      record {
        size =
            rw (machine-same to_uint32 (record b { bandwidths = qs })) (omega (arith, k, f.size));
        place = ground (arith, f.place);
      },
    )
