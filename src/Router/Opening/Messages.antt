-- ===== src/Router/Opening/Messages.antt =====
-- What the messages that open a session say.
use cs.Base.{
  ℕ, ◌+◌, ◌^◌, ◌<◌, ◌≤◌, ◌≡◌, refl, ◌∙◌, Bool-cases, inl, inr, Bool, true, false, List, length,
  lt→ltb, arith, done, ◌>>=◌, ◌>>◌,
}
use cs.Bytes.{Buf, byte_at, byte_of, patch, half_at, word_at, htons, htonl}
use cs.Bytes.Patch.{patch_in, patch_out, patch_before}
use cs.Router.Opening.{
  vns_open, vns_open_template, open_size, template_size, Identity, has_template, open_message,
  template_message, message,
}

-- A string in a field of `n` characters, cut off or filled up with zeros.
abbrev pub IsField : Buf → ℕ → List ℕ → ℕ → Type 0
IsField b off s n = (i : ℕ) → i < n → b.at (off + i) ≡ byte_at s i

-- c_open, with the padding and the password zero.
pub record IsOpen (c : Identity) (user : List ℕ) (b : Buf) : Type 0 where
  pub size : b.len ≡ 108
  pub length_field : htonl (word_at b 0) ≡ 108
  pub kind_field : htonl (word_at b 4) ≡ 1
  pub topology : htons (half_at b 8) ≡ c.topo_id
  pub padding : half_at b 10 ≡ 0
  pub host_field : IsField b 12 c.host 32
  pub user_field : IsField b 44 user 32
  pub password : (i : ℕ) → 76 ≤ i → b.at i ≡ 0

-- c_open_template, without filters.
pub record IsOpenTemplate (c : Identity) (b : Buf) : Type 0 where
  pub size : b.len ≡ 70
  pub length_field : htonl (word_at b 0) ≡ 70
  pub kind_field : htonl (word_at b 4) ≡ 64
  pub template_field : IsField b 8 c.template 30
  pub host_field : IsField b 38 c.host 32

abbrev heads : (ℕ → ℕ) → ℕ → ℕ → ℕ → ℕ
heads junk len kind = patch (patch junk 0 4 (byte_of (htonl len))) 4 4 (byte_of (htonl kind))

abbrev pub plain : Identity → List ℕ → ℕ → ℕ
plain c user =
    patch
      (patch (patch (heads (λ i. 0) open_size vns_open) 8 2 (byte_of (htons c.topo_id))) 12 32
        (byte_at c.host))
      44 32 (byte_at user)

abbrev templated : Identity → (ℕ → ℕ) → ℕ → ℕ
templated c junk =
    patch (patch (heads junk template_size vns_open_template) 8 30 (byte_at c.template)) 38 32
      (byte_at c.host)

-- A topology number is an `unsigned short`.
plain-IsOpen :
    (c : Identity) (user : List ℕ)
    → c.topo_id < 2 ^ 16
    → IsOpen c user (record { len = open_size; at = plain c user })
plain-IsOpen c user small =
    let topo = patch (heads (λ i. 0) open_size vns_open) 8 2 (byte_of (htons c.topo_id)) in
    record {
      size = refl;
      length_field = refl;
      kind_field = refl;
      topology = omega arith;
      padding = refl;
      host_field = λ i h.
          patch_before (patch topo 12 32 (byte_at c.host)) 44 32 (byte_at user) (12 + i)
            (omega arith)
          ∙ patch_in topo 12 32 (byte_at c.host) i h;
      user_field = λ i h. patch_in (patch topo 12 32 (byte_at c.host)) 44 32 (byte_at user) i h;
      password = λ i h.
          patch_out (patch topo 12 32 (byte_at c.host)) 44 32 (byte_at user) i (omega arith)
          ∙ patch_out topo 12 32 (byte_at c.host) i (omega arith)
          ∙ ground arith;
    }

templated-IsOpenTemplate :
    (c : Identity) (junk : ℕ → ℕ)
    → IsOpenTemplate c (record { len = template_size; at = templated c junk })
templated-IsOpenTemplate c junk =
    let front = heads junk template_size vns_open_template in
    record {
      size = refl;
      length_field = refl;
      kind_field = refl;
      template_field = λ i h.
          patch_before (patch front 8 30 (byte_at c.template)) 38 32 (byte_at c.host) (8 + i)
            (omega arith)
          ∙ patch_in front 8 30 (byte_at c.template) i h;
      host_field =
          λ i h. patch_in (patch front 8 30 (byte_at c.template)) 38 32 (byte_at c.host) i h;
    }

abbrev pub IsMessage : Bool → Identity → List ℕ → Buf → Type 0
IsMessage true c user b = IsOpenTemplate c b
IsMessage false c user b = IsOpen c user b

-- The message that opens a session is a `c_open` for the topology, the host and the user, or with a template a
-- `c_open_template` for the template and the host, with every field in network order and every string cut off or filled up with
-- zeros. The template's array must have room for its terminator.
pub message-IsMessage :
    (c : Identity) (user : List ℕ) (junk : ℕ → ℕ)
    → c.topo_id < 2 ^ 16
    → length c.template < 30
    → (b : Buf) × (message c user junk ≡ done b) × IsMessage (has_template c) c user b
unfolding message open_message template_message ◌>>=◌ ◌>>◌
message-IsMessage c user junk small fits =
    let room = lt→ltb (length c.template) 30 fits in
    elim (Bool-cases (has_template c)) [
      | inl e ↦ (
        record { len = template_size; at = templated c junk },
        rw (room, e) refl,
        rw e (templated-IsOpenTemplate c junk),
      )
      | inr e ↦ (
        record { len = open_size; at = plain c user },
        rw (room, e) refl,
        rw e (plain-IsOpen c user small),
      )
    ]
