-- ===== src/Router/Send/Laws.antt =====
-- What `sr_send_packet` lets through.
use cs.Base.{
  Ensures-mono, ◌>>=◌, ℕ, ◌+◌, ◌≤◌, ◌≡◌, refl, List, [], ◌∷◌, Bool, true, false, Option, none, some,
  ltb, leb, if◌then◌else◌, arith, take, All, All-append, sym, ap, ◌∙◌, ◌++◌, Run, done, Bool-cases,
  inl, inr, le→leb, Ensures, returns, undefined, bind,
}
use mathlib.Core.List.{append_assoc}
use mathlib.Core.Path.{subst}
use cs.Bytes.{Buf, Mac, mac_at, mac_eq}
use cs.Router.State.{Iface, Frame, ArpCache, Instance}
use cs.Router.Interfaces.{sr_get_interface, find_name}
use cs.Router.Cache.Invariant.{IsCache}
use cs.Router.Send.{match_iface, sr_ether_addrs_match_interface, with_frame, sr_send_packet}

pub mac_eq_refl : (m : Mac) → mac_eq m m ≡ true
mac_eq_refl m = ground arith

pub eq_of_mac_eq : (a b : Mac) → mac_eq a b ≡ true → a ≡ b
eq_of_mac_eq a b h = ground arith

match-own :
    (sr : Instance) (b : Buf) (name : List ℕ) {via : Iface}
    → 12 ≤ b.len
    → sr_get_interface sr name ≡ some via
    → mac_at b 6 ≡ via.addr
    → sr_ether_addrs_match_interface sr b name ≡ done true
unfolding sr_ether_addrs_match_interface ◌>>=◌
match-own sr b name {via} long found own =
    rw (found, sr_ether_addrs_match_interface)
      (rw (le→leb 12 b.len long) (ap done (ap (λ m. mac_eq m via.addr) own ∙ mac_eq_refl via.addr)))

-- A frame of at least 14 bytes, within its block, whose source is the address of the interface of
-- the given name, is sent, and the state is otherwise unchanged.
pub sr_send_packet-sent :
    (sr : Instance) (b : Buf) (len : ℕ) (name : List ℕ) {via : Iface}
    → 14 ≤ len
    → len ≤ b.len
    → sr_get_interface sr name ≡ some via
    → mac_at b 6 ≡ via.addr
    → sr_send_packet sr b len name ≡ done (with_frame sr (record { len = len; at = b.at }) len name)
unfolding sr_send_packet ◌>>=◌
sr_send_packet-sent sr b len name {via} long inside found own =
    let enough : ltb len 14 ≡ false = ground arith in
    let whole : leb (0 + len) b.len ≡ true = ground arith in
    rw (enough, whole, match-own sr b name (omega arith) found own)

-- What stands in a frame that was sent, given the router's interfaces: it is complete, and comes
-- from the address of the interface that it goes out by.
pub record IsGenuine (ifs : List Iface) (f : Frame) : Type 0 where
  pub name : List ℕ
  pub via : Iface
  pub by : f.iface ≡ take 16 name
  pub known : find_name name ifs ≡ some via
  pub own : mac_at f.buf 6 ≡ via.addr
  pub long : 14 ≤ f.len
  pub whole : f.buf.len ≡ f.len

-- What a handler may do: send genuine frames and work on the ARP cache within its invariant. The
-- frames sent before, the interfaces and the routes stay.
pub record IsStep (sr sr' : Instance) : Type 0 where
  pub same_ifs : sr'.if_list ≡ sr.if_list
  pub same_routes : sr'.routing_table ≡ sr.routing_table
  pub frames : List Frame
  pub split : sr'.sent ≡ frames ++ sr.sent
  pub genuine : All (IsGenuine sr.if_list) frames
  pub keeps : IsCache sr.cache → IsCache sr'.cache

pub IsStep-refl : (sr : Instance) → IsStep sr sr
IsStep-refl sr = record {
  same_ifs = refl;
  same_routes = refl;
  frames = [];
  split = refl;
  genuine = tt;
  keeps = λ v. v;
}

pub IsStep-trans : {sr sr' sr'' : Instance} → IsStep sr sr' → IsStep sr' sr'' → IsStep sr sr''
IsStep-trans {sr} s t = record {
  same_ifs = t.same_ifs ∙ s.same_ifs;
  same_routes = t.same_routes ∙ s.same_routes;
  frames = t.frames ++ s.frames;
  split = t.split ∙ ap (λ l. t.frames ++ l) s.split ∙ sym (append_assoc t.frames s.frames sr.sent);
  genuine =
      All-append (IsGenuine sr.if_list) t.frames s.frames
        (subst (λ l. All (IsGenuine l) t.frames) s.same_ifs t.genuine) s.genuine;
  keeps = λ v. t.keeps (s.keeps v);
}

pub with_cache-IsStep :
    (sr : Instance) (c : ArpCache)
    → (IsCache sr.cache → IsCache c)
    → IsStep sr (record sr { cache = c })
with_cache-IsStep sr c keeps = record {
  same_ifs = refl;
  same_routes = refl;
  frames = [];
  split = refl;
  genuine = tt;
  keeps = keeps;
}

pub after :
    {sr sr' : Instance} {r : Run Instance}
    → IsStep sr sr'
    → Ensures (IsStep sr') r
    → Ensures (IsStep sr) r
after s (returns t) = returns (IsStep-trans s t)
after s undefined = undefined

with_frame-IsStep :
    (sr : Instance) (b : Buf) (len : ℕ) (name : List ℕ)
    → IsGenuine sr.if_list (record { buf = b; len = len; iface = take 16 name })
    → IsStep sr (with_frame sr b len name)
with_frame-IsStep sr b len name g = record {
  same_ifs = refl;
  same_routes = refl;
  frames = record { buf = b; len = len; iface = take 16 name } ∷ [];
  split = refl;
  genuine = (g, tt);
  keeps = λ v. v;
}

abbrev Matched : Buf → Option Iface → Bool → Type 0
Matched b o ok = ok ≡ true → (via : Iface) × (o ≡ some via) × (mac_at b 6 ≡ via.addr)

match_iface-Matched : (b : Buf) (o : Option Iface) → Ensures (Matched b o) (match_iface b o)
unfolding match_iface ◌>>=◌
match_iface-Matched b none = returns (λ h. cc)
match_iface-Matched b (some via) = elim (Bool-cases (leb 12 b.len)) [
  | inl inside ↦ rw inside (returns (λ h. (via, refl, eq_of_mac_eq _ _ h)))
  | inr cut ↦ rw cut undefined
]

Matched-IsStep :
    (sr : Instance) (b : Buf) (len : ℕ) (name : List ℕ) (ok : Bool)
    → 14 ≤ len
    → Matched b (sr_get_interface sr name) ok
    → IsStep sr (if ok then with_frame sr (record { len = len; at = b.at }) len name else sr)
unfolding sr_get_interface
Matched-IsStep sr b len name false long m = IsStep-refl sr
Matched-IsStep sr b len name true long m =
    let (via, found, own) = m refl in
    with_frame-IsStep sr (record { len = len; at = b.at }) len name
      (record {
        name = name;
        via = via;
        by = refl;
        known = found;
        own = own;
        long = long;
        whole = refl;
      })

-- A step that leaves the ARP cache alone.
pub record IsSend (sr sr' : Instance) : Type 0 where
  pub step : IsStep sr sr'
  pub same_cache : sr'.cache ≡ sr.cache

pub IsSend-refl : (sr : Instance) → IsSend sr sr
IsSend-refl sr = record { step = IsStep-refl sr; same_cache = refl }

pub IsSend-trans : {sr sr' sr'' : Instance} → IsSend sr sr' → IsSend sr' sr'' → IsSend sr sr''
IsSend-trans s t = record {
  step = IsStep-trans s.step t.step;
  same_cache = t.same_cache ∙ s.same_cache;
}

pub IsSend-after :
    {sr sr' : Instance} {r : Run Instance}
    → IsSend sr sr'
    → Ensures (IsSend sr') r
    → Ensures (IsSend sr) r
IsSend-after s (returns t) = returns (IsSend-trans s t)
IsSend-after s undefined = undefined

Matched-IsSend :
    (sr : Instance) (b : Buf) (len : ℕ) (name : List ℕ) (ok : Bool)
    → 14 ≤ len
    → Matched b (sr_get_interface sr name) ok
    → IsSend sr (if ok then with_frame sr (record { len = len; at = b.at }) len name else sr)
Matched-IsSend sr b len name false long m = IsSend-refl sr
Matched-IsSend sr b len name true long m = record {
  step = Matched-IsStep sr b len name true long m;
  same_cache = refl;
}

-- Every call of `sr_send_packet` is such a step, whatever the buffer, the length and the name.
pub sr_send_packet-IsSend :
    (sr : Instance) (b : Buf) (len : ℕ) (name : List ℕ)
    → Ensures (IsSend sr) (sr_send_packet sr b len name)
unfolding sr_send_packet sr_ether_addrs_match_interface sr_get_interface ◌>>=◌
sr_send_packet-IsSend sr b len name = elim (Bool-cases (ltb len 14)) [
  | inl short ↦ rw short (returns (IsSend-refl sr))
  | inr enough ↦ rw enough (elim (Bool-cases (leb (0 + len) b.len)) [
    | inl whole ↦ rw whole (
        bind (match_iface-Matched b (sr_get_interface sr name))
          λ ok m. returns (Matched-IsSend sr b len name ok (ground arith) m))
    | inr cut ↦ rw cut undefined
  ])
]

pub sr_send_packet-IsStep :
    (sr : Instance) (b : Buf) (len : ℕ) (name : List ℕ)
    → Ensures (IsStep sr) (sr_send_packet sr b len name)
sr_send_packet-IsStep sr b len name =
    Ensures-mono (sr_send_packet-IsSend sr b len name) λ sr' s. s.step
