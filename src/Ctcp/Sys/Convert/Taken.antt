-- ===== src/Ctcp/Sys/Convert/Taken.antt =====
-- What `convert_to_ctcp` of ctcp_sys_internal.c takes from a packet, step by step.
use cs.Base.{ℕ, ◌+◌, ◌-◌, ◌%◌, ◌^◌, ◌≤◌, ◌<◌, ◌≡◌, true, leb, ltb, le→leb, arith, done, ◌>>=◌}
use cs.Bytes.{Buf, patch, byte_of, half_at, word_at, htons, htonl}
use cs.Checksum.{cksum}
use cs.Ctcp.Sys.Convert.{Link, cksum_tcp, ctcp_fields, convert_to_ctcp}
use cs.Ctcp.Sys.Convert.Agree.{copy_data_lem}
use cs.Ctcp.Sys.Convert.Steps.{with_sum}

-- What the receiver makes of a packet with `m` bytes of data, before the checksum.
abbrev pub fields_of : Link → Buf → ℕ → Buf
fields_of r d m =
    let g =
      patch (λ i. 0) 0 4
        (byte_of (htonl ((htonl (word_at d 24) + 2 ^ 32 - r.their_init_seqno) % 2 ^ 32))) in
    let h =
      patch g 4 4 (byte_of (htonl ((htonl (word_at d 28) + 2 ^ 32 - r.init_seqno) % 2 ^ 32))) in
    let k = patch (patch h 8 2 (byte_of (htons (20 + m)))) 12 4 (byte_of (d.at 33)) in
    record {
      len = 20 + m;
      at = patch (patch k 16 2 (byte_of (half_at d 34))) 20 m (λ i. d.at (40 + i));
    }

pub fields_of-data :
    (r : Link) (d : Buf) (m j : ℕ) → j < m → (fields_of r d m).at (20 + j) ≡ d.at (40 + j)
fields_of-data r d m j h =
    let e : 20 + j - 20 ≡ j = omega arith in
    let k : leb 20 (20 + j) ≡ true = ground arith in
    let f : ltb (20 + j) (20 + m) ≡ true = ground arith in rw (k, f, e)

pub fields_of-beyond : (r : Link) (d : Buf) (m j : ℕ) → m ≤ j → (fields_of r d m).at (20 + j) ≡ 0
fields_of-beyond r d m j h =
    header (byte_of (htonl ((htonl (word_at d 24) + 2 ^ 32 - r.their_init_seqno) % 2 ^ 32)))
      (byte_of (htonl ((htonl (word_at d 28) + 2 ^ 32 - r.init_seqno) % 2 ^ 32)))
      (byte_of (htons (20 + m))) (byte_of (d.at 33)) (byte_of (half_at d 34)) (λ i. d.at (40 + i))
      (20 + j) (omega arith) (omega arith)
  where
    header :
        (p q t u v w : ℕ → ℕ) (i : ℕ)
        → 20 + m ≤ i
        → 20 ≤ i
        → patch
            (patch (patch (patch (patch (patch (λ i. 0) 0 4 p) 4 4 q) 8 2 t) 12 4 u) 16 2 v)
            20
            m
            w
            i
          ≡ 0
    header p q t u v w i k l = ground arith

ctcp_fields_lem :
    (r : Link) (d : Buf) (m : ℕ)
    → d.len ≡ 40 + m
    → m ≤ 1440
    → ctcp_fields r d m ≡ done (fields_of r d m)
unfolding ctcp_fields ◌>>=◌
ctcp_fields_lem r d m size few =
    let e : (m + 20) % 2 ^ 16 ≡ 20 + m = omega arith in
    rw
      (
        e,
        le→leb 28 d.len (omega arith),
        le→leb 4 (20 + m) (omega arith),
        le→leb 32 d.len (omega arith),
        le→leb 8 (20 + m) (omega arith),
        le→leb 10 (20 + m) (omega arith),
        le→leb 34 d.len (omega arith),
        le→leb 16 (20 + m) (omega arith),
        le→leb 36 d.len (omega arith),
        le→leb 18 (20 + m) (omega arith),
      )
      (copy_data_lem _ d 20 40 m (omega arith) (omega arith))

pub convert_to_ctcp_lem :
    (r : Link) (d : Buf) (m k t : ℕ)
    → d.len ≡ 40 + m
    → m ≤ 1440
    → htons (half_at d 2) ≡ 40 + m
    → cksum (fields_of r d m) 0 (20 + m) ≡ done k
    → cksum_tcp (with_sum d 0) m ≡ done t
    → convert_to_ctcp r d
      ≡ done (record (fields_of r d m) {
        at = patch (fields_of r d m).at 18 2 (byte_of ((k + (t + 2 ^ 16 - half_at d 36)) % 2 ^ 16));
      })
unfolding convert_to_ctcp ◌>>=◌
convert_to_ctcp_lem r d m k t size few tot correct tcp =
    let e : (40 + m + 2 ^ 16 - 40) % 2 ^ 16 ≡ m = omega arith in
    let f : (m + 20) % 2 ^ 16 ≡ 20 + m = omega arith in
    rw (
      le→leb 4 d.len (omega arith),
      tot,
      e,
      ctcp_fields_lem r d m size few,
      f,
      correct,
      le→leb 38 d.len (omega arith),
      tcp,
      le→leb 20 (20 + m) (omega arith),
    )
