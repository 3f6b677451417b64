-- ===== src/Router/Handle/Unreachable.antt =====
-- The port-unreachable message.
use cs.Base.{ℕ, ◌+◌, ◌≤◌, ◌<◌, ◌≡◌, refl, none, true, leb, arith, done, fault, ◌>>=◌, le→leb}
use cs.Bytes.{Buf, HasBytes, mac_at, word_at, patch, byte_of, htons}
use cs.Router.State.{Instance, Env}
use cs.Router.Interfaces.{mac_2_iface}
use cs.Checksum.{cksum}
use cs.Checksum.Laws.{cksum-IsChecksum, IsSummed, word_sum}
use cs.Checksum.Header.{
  patch-bytes, byte_of-bytes, word_round, word_at-lt, with_ip_sum, with_ip_sum-HasBytes,
  IsSummed-with_ip_sum,
}
use cs.Router.Handle.{port_unreachable_frame, port_unreachable}

-- The message before its checksums.
abbrev drafted : Env → Buf → Buf
drafted env f =
    let a = patch (patch env.junk 0 6 (λ i. f.at (6 + i))) 6 6 (λ i. f.at (0 + i)) in
    let b = patch (patch a 12 2 (byte_of (htons 0x0800))) 14 20 (λ i. f.at (14 + i)) in
    let c = patch (patch b 30 4 (byte_of (word_at f 26))) 26 4 (byte_of (word_at f 30)) in
    let d = patch (patch c 16 2 (byte_of (htons 56))) 22 1 (byte_of 64) in
    record { len = 74; at = patch (patch d 23 1 (byte_of 1)) 24 2 (byte_of 0) }

abbrev addressed : Buf → Buf
addressed g =
    let a = patch (patch (patch g.at 34 1 (byte_of 3)) 35 1 (byte_of 3)) 36 2 (byte_of 0) in
    record { len = 74; at = patch (patch a 38 2 (byte_of 0)) 40 2 (byte_of 0) }

abbrev finished : Buf → Buf → ℕ → Buf
finished f g c = record {
  len = 74;
  at = patch (patch g.at 36 2 (byte_of c)) 34 28 (λ i. f.at (14 + i));
}

module _ (env : Env) (f : Buf) (bytes : HasBytes f) (junk : (i : ℕ) → env.junk i < 256) where
  drafted-HasBytes : HasBytes (drafted env f)
  drafted-HasBytes =
      let store = λ (old : ℕ → ℕ) (off n v : ℕ) (h : (i : ℕ) → old i < 256).
        patch-bytes old off n (byte_of v) h (byte_of-bytes v) in
      store _ 24 2 0 (
        store _ 23 1 1 (
          store _ 22 1 64 (
            store _ 16 2 (htons 56) (
              store _ 26 4 (word_at f 30) (
                store _ 30 4 (word_at f 26) (
                  patch-bytes _ 14 20 _
                    (store _ 12 2 8 (
                      patch-bytes _ 6 6 _ (patch-bytes _ 0 6 _ junk (λ i. bytes (6 + i)))
                        (λ i. bytes (0 + i))))
                    (λ i. bytes (14 + i))))))))

  addressed-HasBytes : (g : Buf) → HasBytes g → HasBytes (addressed g)
  addressed-HasBytes g h =
      let store = λ (old : ℕ → ℕ) (off n v : ℕ) (h : (i : ℕ) → old i < 256).
        patch-bytes old off n (byte_of v) h (byte_of-bytes v) in
      store _ 40 2 0 (store _ 38 2 0 (store _ 36 2 0 (store _ 35 1 3 (store _ 34 1 3 h))))

-- The message `g` about the packet `f`.
pub record IsOverwritten (f g : Buf) : Type 0 where
  pub length : g.len ≡ 74
  pub to_sender : mac_at g 0 ≡ mac_at f 6
  pub from_me : mac_at g 6 ≡ mac_at f 0
  pub time_to_live : g.at 22 ≡ 64
  pub protocol : g.at 23 ≡ 1
  pub source : word_at g 26 ≡ word_at f 30
  pub destination : word_at g 30 ≡ word_at f 26
  pub summed : IsSummed g 14 20
  pub overwritten : (i : ℕ) → i < 28 → g.at (34 + i) ≡ f.at (14 + i)

module _ (env : Env) (f : Buf) (bytes : HasBytes f) (junk : (i : ℕ) → env.junk i < 256)
    (long : 42 ≤ f.len) where
  frame_lem :
      (c d : ℕ)
      → cksum (drafted env f) 14 20 ≡ done c
      → cksum (addressed (with_ip_sum (drafted env f) c)) 34 36 ≡ done d
      → port_unreachable_frame env f
        ≡ done (finished f (addressed (with_ip_sum (drafted env f) c)) d)
  unfolding port_unreachable_frame ◌>>=◌
  frame_lem c d e e' = rw (
    le→leb 12 f.len (omega arith),
    le→leb 6 f.len (omega arith),
    le→leb 34 f.len (omega arith),
    le→leb 30 f.len (omega arith),
    e,
    e',
    le→leb 42 f.len long,
  )

  -- Of a packet of at least 42 bytes, `port_unreachable_frame` makes a message of 74 bytes with a
  -- right IP header, back to the packet's sender. Its ICMP message, type and checksum with it, is
  -- written over with the 28 bytes of the packet from its IP header on.
  pub port_unreachable_frame-IsOverwritten :
      (g : Buf) × (port_unreachable_frame env f ≡ done g) × IsOverwritten f g
  unfolding word_sum
  port_unreachable_frame-IsOverwritten =
      let (c, e, k) =
        cksum-IsChecksum (drafted env f) 14 20 (drafted-HasBytes env f bytes junk) (omega arith)
          (omega arith) in
      let g = addressed (with_ip_sum (drafted env f) c) in
      let (d, e', k') =
        cksum-IsChecksum g 34 36
          (addressed-HasBytes env f bytes junk (with_ip_sum (drafted env f) c)
            (with_ip_sum-HasBytes (drafted env f) c (drafted-HasBytes env f bytes junk)))
          (omega arith) (omega arith) in
      (
        finished f g d,
        frame_lem c d e e',
        record {
          length = refl;
          to_sender = refl;
          from_me = refl;
          time_to_live = refl;
          protocol = refl;
          source = word_round (word_at f 30) (word_at-lt f 30 bytes);
          destination = word_round (word_at f 26) (word_at-lt f 26 bytes);
          summed = IsSummed-with_ip_sum (drafted env f) c refl refl k;
          overwritten = λ i h. ground arith;
        },
      )

-- For a packet of at least 42 bytes the message goes nowhere when the packet's sender is no
-- interface of the router's: the interface is looked up by the sender's hardware address, and the
-- null pointer is followed.
pub port_unreachable_missing :
    (sr : Instance) (env : Env) (f : Buf)
    → HasBytes f
    → ((i : ℕ) → env.junk i < 256)
    → 42 ≤ f.len
    → mac_2_iface sr (mac_at f 6) ≡ none
    → port_unreachable sr env f ≡ fault
unfolding port_unreachable ◌>>=◌
port_unreachable_missing sr env f bytes junk long missing =
    let (g, run, is) = port_unreachable_frame-IsOverwritten env f bytes junk long in
    let inside : leb 6 g.len ≡ true = le→leb 6 g.len (omega (arith, is.length)) in
    rw (run, inside, is.to_sender, missing)
