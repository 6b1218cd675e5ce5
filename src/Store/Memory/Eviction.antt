-- ===== src/Store/Memory/Eviction.antt =====
-- The sweep of rp/store/memory/store.go: what it leaves of the map.
use lanyard.Base.{
  ℕ, zero, suc, ◌≤◌, ◌≡◌, refl, sym, ◌∙◌, inl, inr, Option, none, some, true, false, Text, ◌==◌,
  eq_of_==, ltb, length, arith, Bool-cases, ltb→lt,
}
use lanyard.Base.Maps.{Dict, lookup, erase, Distinct, lookup-erase, length-erase-lt, erase-Distinct}
use lanyard.Http.{Time, Duration}
use lanyard.Store.Memory.Sweep.{
  KeysNonempty, erase-KeysNonempty, unexpired, lookup-drop_expired, drop_expired-Distinct,
  drop_expired-KeysNonempty, length-drop_expired-le,
}
use lanyard.Store.Memory.Oldest.{first_out, first_out_mem, first_out_least}
use lanyard.Store.Memory.{StateEntry, is_expired, drop_expired, evict, sweep, max_entries}

module _ (n : ℕ) (ttl : Duration) (m : Dict StateEntry) where
  evict_over :
      ltb max_entries (length m) ≡ true
      → evict (suc n) ttl m ≡ evict n ttl (erase (first_out ttl m) m)
  unfolding evict first_out
  evict_over h = rw h

  evict_done : ltb max_entries (length m) ≡ false → evict (suc n) ttl m ≡ m
  unfolding evict
  evict_done h = rw h

evict-zero : (ttl : Duration) (m : Dict StateEntry) → evict zero ttl m ≡ m
unfolding evict
evict-zero ttl m = refl

-- A property that each deletion keeps is kept by the loop.
evict_keeps {ℓ} :
    (P : Dict StateEntry → Type ℓ)
    → ((k : Text) (m : Dict StateEntry) → P m → P (erase k m))
    → (n : ℕ) (ttl : Duration) (m : Dict StateEntry) → P m
    → P (evict n ttl m)
evict_keeps P keep zero ttl m h = rw (evict-zero ttl m) h
evict_keeps P keep (suc n) ttl m h = elim (Bool-cases (ltb max_entries (length m))) [
  | inl t ↦ rw (evict_over n ttl m t) (evict_keeps P keep n ttl _ (keep _ m h))
  | inr t ↦ rw (evict_done n ttl m t) h
]

lookup_of_erase :
    (k j : Text) (m : Dict StateEntry) (e : StateEntry)
    → lookup j (erase k m) ≡ some e
    → lookup j m ≡ some e
lookup_of_erase k j m e h = ground (arith, lookup-erase k j m)

lookup_of_evict :
    (n : ℕ) (ttl : Duration) (m : Dict StateEntry) (k : Text) (e : StateEntry)
    → lookup k (evict n ttl m) ≡ some e
    → lookup k m ≡ some e
lookup_of_evict zero ttl m k e h = rw (evict-zero ttl m) at h
lookup_of_evict (suc n) ttl m k e h = elim (Bool-cases (ltb max_entries (length m))) [
  | inl t ↦ lookup_of_erase _ k m e (lookup_of_evict n ttl _ k e (rw (evict_over n ttl m t) at h))
  | inr t ↦ rw (evict_done n ttl m t) at h
]

-- As many rounds as there are entries are enough.
length-evict-le :
    (n : ℕ) (ttl : Duration) (m : Dict StateEntry)
    → length m ≤ n
    → length (evict n ttl m) ≤ max_entries
length-evict-le zero ttl m h = rw (evict-zero ttl m) (omega arith)
length-evict-le (suc n) ttl m h = elim (Bool-cases (ltb max_entries (length m))) [
  | inl t ↦
      let big = ltb→lt max_entries (length m) t in
      let less = length-erase-lt (first_out ttl m) m (first_out_mem ttl m (omega arith)) in
      rw (evict_over n ttl m t) (length-evict-le n ttl (erase (first_out ttl m) m) (omega arith))
  | inr t ↦ rw (evict_done n ttl m t) (ground arith)
]

evict_small :
    (n : ℕ) (ttl : Duration) (m : Dict StateEntry) → length m ≤ max_entries → evict n ttl m ≡ m
evict_small zero ttl m h = evict-zero ttl m
evict_small (suc n) ttl m h = evict_done n ttl m (ground arith)

-- An entry that goes was created no later than one that stays.
evict_oldest :
    (n : ℕ) (ttl : Duration) (m : Dict StateEntry) (k k' : Text) (e e' : StateEntry)
    → KeysNonempty m
    → Distinct m
    → lookup k m ≡ some e
    → lookup k (evict n ttl m) ≡ none
    → lookup k' (evict n ttl m) ≡ some e'
    → e.created_at ≤ e'.created_at
evict_oldest zero ttl m k k' e e' ks d h gone stays =
    let gone' : lookup k m ≡ none = rw (evict-zero ttl m) at gone in cc
evict_oldest (suc n) ttl m k k' e e' ks d h gone stays =
    elim (Bool-cases (ltb max_entries (length m))) [
      | inl t ↦ over (rw (evict_over n ttl m t) at stays) (λ kept.
          evict_oldest n ttl (erase (first_out ttl m) m) k k' e e' (erase-KeysNonempty _ m ks)
            (erase-Distinct _ m d) kept (rw (evict_over n ttl m t) at gone)
            (rw (evict_over n ttl m t) at stays))
      | inr t ↦ let gone' : lookup k m ≡ none = rw (evict_done n ttl m t) at gone in cc
    ]
  where
    j : Text
    j = first_out ttl m

    over :
        lookup k' (evict n ttl (erase j m)) ≡ some e'
        → (lookup k (erase j m) ≡ some e → e.created_at ≤ e'.created_at)
        → e.created_at ≤ e'.created_at
    over stays' later = elim (Bool-cases (j == k)) [
      | inl same ↦
          first_out_least ttl m k k' e e' ks d (eq_of_== j k same) h
            (lookup_of_erase j k' m e' (lookup_of_evict n ttl (erase j m) k' e' stays'))
      | inr other ↦ later (lookup-erase j k m ∙ rw other h)
    ]

-- Whatever the map was, at most `max_entries` entries are left.
pub length-sweep-le :
    (ttl : Duration) (now : Time) (m : Dict StateEntry) → length (sweep ttl now m) ≤ max_entries
unfolding sweep
length-sweep-le ttl now m = length-evict-le _ ttl (drop_expired ttl now m) (omega arith)

-- What is left was there, and has not expired.
pub lookup_of_sweep :
    (ttl : Duration) (now : Time) (m : Dict StateEntry) (k : Text) (e : StateEntry)
    → Distinct m
    → lookup k (sweep ttl now m) ≡ some e
    → (lookup k m ≡ some e) × (is_expired ttl e now ≡ false)
unfolding sweep
lookup_of_sweep ttl now m k e d h =
    from_unexpired (lookup k m) (
      sym (lookup-drop_expired ttl now k m d)
      ∙ lookup_of_evict _ ttl (drop_expired ttl now m) k e h)
  where
    from_unexpired :
        (o : Option StateEntry)
        → unexpired ttl now o ≡ some e
        → (o ≡ some e) × (is_expired ttl e now ≡ false)
    from_unexpired none q = cc
    from_unexpired (some w) q = ground arith

-- While the map is not over its capacity, the sweep only drops what has expired.
pub lookup-sweep :
    (ttl : Duration) (now : Time) (m : Dict StateEntry) (k : Text)
    → Distinct m
    → length m ≤ max_entries
    → lookup k (sweep ttl now m) ≡ unexpired ttl now (lookup k m)
unfolding sweep
lookup-sweep ttl now m k d h =
    rw
      (evict_small _ ttl (drop_expired ttl now m) (omega (arith, length-drop_expired-le ttl now m)))
      (lookup-drop_expired ttl now k m d)

-- Of the entries that have not expired, one that the sweep evicts was created no later than any
-- that it keeps.
pub sweep_oldest_first :
    (ttl : Duration) (now : Time) (m : Dict StateEntry) (k k' : Text) (e e' : StateEntry)
    → KeysNonempty m
    → Distinct m
    → lookup k m ≡ some e
    → is_expired ttl e now ≡ false
    → lookup k (sweep ttl now m) ≡ none
    → lookup k' (sweep ttl now m) ≡ some e'
    → e.created_at ≤ e'.created_at
unfolding sweep
sweep_oldest_first ttl now m k k' e e' ks d h fresh gone stays =
    evict_oldest _ ttl (drop_expired ttl now m) k k' e e' (drop_expired-KeysNonempty ttl now m ks)
      (drop_expired-Distinct ttl now m d) (lookup-drop_expired ttl now k m d ∙ rw (h, fresh)) gone
      stays

pub sweep-Distinct :
    (ttl : Duration) (now : Time) (m : Dict StateEntry) → Distinct m → Distinct (sweep ttl now m)
unfolding sweep
sweep-Distinct ttl now m d =
    evict_keeps Distinct (λ k w h. erase-Distinct k w h) _ ttl (drop_expired ttl now m)
      (drop_expired-Distinct ttl now m d)

pub sweep-KeysNonempty :
    (ttl : Duration) (now : Time) (m : Dict StateEntry)
    → KeysNonempty m
    → KeysNonempty (sweep ttl now m)
unfolding sweep
sweep-KeysNonempty ttl now m d =
    evict_keeps KeysNonempty (λ k w h. erase-KeysNonempty k w h) _ ttl (drop_expired ttl now m)
      (drop_expired-KeysNonempty ttl now m d)
