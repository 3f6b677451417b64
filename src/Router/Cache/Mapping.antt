-- ===== src/Router/Cache/Mapping.antt =====
-- Looking up an address after `sr_arpcache_insert` and after the sweep of old entries.
use cs.Base.{
  ℕ, ◌+◌, ◌≤◌, ◌≡◌, refl, List, [], ◌∷◌, Bool, true, false, not, ◌&&◌, ◌||◌, Option, none, some,
  ◌==◌, if◌then◌else◌, arith, Bool-cases, inl, inr,
}
use cs.Bytes.{Mac}
use cs.Router.State.{Entry, ArpCache}
use cs.Router.Cache.{
  cache_timeout, lookup_loop, sr_arpcache_lookup, fill_slot, sr_arpcache_insert, expire, expire_all,
}

abbrev pub is_for : ℕ → Entry → Bool
is_for ip e = e.valid && e.ip == ip

-- Some valid entry is for `ip`.
unfoldable pub mapped : ℕ → List Entry → Bool
mapped ip [] = false
mapped ip (e ∷ es) = is_for ip e || mapped ip es

-- There is a free slot, and no valid entry for `ip` stands behind the first one.
unfoldable pub takes : ℕ → List Entry → Bool
unfolding mapped
takes ip [] = false
takes ip (e ∷ es) = if e.valid then takes ip es else not (mapped ip es)

abbrev pub entered : ℕ → Mac → ℕ → Entry
entered now mac ip = record { mac = mac; ip = ip; added = now; valid = true }

lookup_loop-unmapped :
    (ip : ℕ) (es : List Entry) (acc : Option Entry)
    → mapped ip es ≡ false
    → lookup_loop ip es acc ≡ acc
unfolding lookup_loop mapped
lookup_loop-unmapped ip [] acc h = refl
lookup_loop-unmapped ip (e ∷ es) acc h = ground (arith, lookup_loop-unmapped ip es acc)

lookup_loop-mapped :
    (ip : ℕ) (es : List Entry) (a b : Option Entry)
    → mapped ip es ≡ true
    → lookup_loop ip es a ≡ lookup_loop ip es b
unfolding lookup_loop mapped
lookup_loop-mapped ip [] a b h = cc
lookup_loop-mapped ip (e ∷ es) a b h = elim (Bool-cases (is_for ip e)) [
  | inl hit ↦ rw hit
  | inr miss ↦ rw miss (lookup_loop-mapped ip es a b (ground arith))
]

module _ (now : ℕ) (mac : Mac) (ip : ℕ) where
  abbrev added : Entry
  added = entered now mac ip

  lookup_loop-here :
      (j : ℕ) (es : List Entry) (acc : Option Entry)
      → lookup_loop j es (if ip == j then some added else acc)
        ≡ (if (j == ip) && not (mapped ip es) then some added else lookup_loop j es acc)
  lookup_loop-here j es acc = elim (Bool-cases (mapped j es)) [
    | inl there ↦ ground (arith, lookup_loop-mapped j es (some added) acc)
    | inr gone ↦
        ground (arith, lookup_loop-unmapped j es (some added), lookup_loop-unmapped j es acc)
  ]

  lookup_loop-fill_slot :
      (j : ℕ) (es : List Entry) (acc : Option Entry)
      → lookup_loop j (fill_slot added es) acc
        ≡ (if (j == ip) && takes ip es then some added else lookup_loop j es acc)
  unfolding lookup_loop fill_slot takes
  lookup_loop-fill_slot j [] acc = ground arith
  lookup_loop-fill_slot j (x ∷ xs) acc = ground (
    arith,
    lookup_loop-fill_slot j xs acc,
    lookup_loop-fill_slot j xs (some x),
    lookup_loop-here j xs acc,
  )

  -- After the insert a lookup of `ip` finds the new mapping if there was a free slot and no valid
  -- entry for `ip` behind it. Every other lookup, and `ip`'s otherwise, finds what it found before.
  pub lookup-insert :
      (c : ArpCache) (j : ℕ)
      → sr_arpcache_lookup (sr_arpcache_insert now c mac ip).0 j ≡ (
          if (j == ip) && takes ip c.entries
          then some (entered now mac ip)
          else sr_arpcache_lookup c j)
  unfolding sr_arpcache_lookup sr_arpcache_insert
  lookup-insert c j = lookup_loop-fill_slot j c.entries none

-- An entry that a lookup may return at the time `now`.
pub record IsCurrent (now ip : ℕ) (e : Entry) : Type 0 where
  pub valid : e.valid ≡ true
  pub same_ip : e.ip ≡ ip
  pub young : now ≤ e.added + cache_timeout

abbrev AllCurrent : ℕ → ℕ → Option Entry → Type 0
AllCurrent now ip none = Unit {0}
AllCurrent now ip (some e) = IsCurrent now ip e

expire-IsCurrent :
    (now ip : ℕ) (e : Entry) → is_for ip (expire now e) ≡ true → IsCurrent now ip (expire now e)
expire-IsCurrent now ip e h = record {
  valid = ground arith;
  same_ip = ground arith;
  young = ground arith;
}

AllCurrent-pick :
    (now ip : ℕ) (b : Bool) (e : Entry) (acc : Option Entry)
    → (b ≡ true → IsCurrent now ip e)
    → AllCurrent now ip acc
    → AllCurrent now ip (if b then some e else acc)
AllCurrent-pick now ip true e acc h k = h refl
AllCurrent-pick now ip false e acc h k = k

lookup_loop-AllCurrent :
    (now ip : ℕ) (es : List Entry) (acc : Option Entry)
    → AllCurrent now ip acc
    → AllCurrent now ip (lookup_loop ip (expire_all now es) acc)
unfolding lookup_loop expire_all
lookup_loop-AllCurrent now ip [] acc h = h
lookup_loop-AllCurrent now ip (e ∷ es) acc h = lookup_loop-AllCurrent now ip es _ (
    AllCurrent-pick now ip (is_for ip (expire now e)) (expire now e) acc (expire-IsCurrent now ip e)
      h)

-- Once the entries have been swept at `now`, a lookup that succeeds returns a valid entry for the
-- address that is at most 15 seconds old.
pub lookup-expire_all :
    (now : ℕ) (c : ArpCache) (ip : ℕ) (e : Entry)
    → sr_arpcache_lookup (record c { entries = expire_all now c.entries }) ip ≡ some e
    → IsCurrent now ip e
unfolding sr_arpcache_lookup
lookup-expire_all now c ip e found = rw found at (lookup_loop-AllCurrent now ip c.entries none tt)
