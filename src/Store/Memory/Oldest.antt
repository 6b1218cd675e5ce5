-- ===== src/Store/Memory/Oldest.antt =====
-- The inner loop of the second loop of `sweepLocked` in rp/store/memory/store.go: it finds a key
-- whose entry was created first.
use lanyard.Base.{
  ◌+◌, ◌≤◌, ◌<◌, ◌≡◌, refl, sym, ◌∙◌, ap, ◌≢◌, ◌⊎◌, inl, inr, none, some, [], ◌∷◌, true, false,
  ◌||◌, Text, ◌==◌, eq_iff, eq_refl, ltb, length, arith, Bool-cases,
}
use lanyard.Base.Maps.{Dict, lookup, Distinct}
use lanyard.Http.{Time, Duration}
use lanyard.Store.Memory.Sweep.{KeysNonempty}
use lanyard.Store.Memory.{StateEntry, oldest}

-- Every entry expires at `x` or later, by its creation time.
abbrev AllFrom : Duration → Time → Dict StateEntry → Type 0
AllFrom ttl x [] = Unit
AllFrom ttl x ((k, e) ∷ m) = (x ≤ e.created_at + ttl) × AllFrom ttl x m

AllFrom-le :
    (ttl : Duration) (x y : Time) (m : Dict StateEntry) → y ≤ x → AllFrom ttl x m → AllFrom ttl y m
AllFrom-le ttl x y [] h a = tt
AllFrom-le ttl x y ((k, e) ∷ m) h a = (omega arith, AllFrom-le ttl x y m h a.1)

AllFrom-lookup :
    (ttl : Duration) (x : Time) (m : Dict StateEntry) (k : Text) (e : StateEntry)
    → AllFrom ttl x m
    → lookup k m ≡ some e
    → x ≤ e.created_at + ttl
unfolding lookup
AllFrom-lookup ttl x [] k e a h = cc
AllFrom-lookup ttl x ((j, w) ∷ m) k e a h = ground (arith, AllFrom-lookup ttl x m k e a.1)

module _ (ttl : Duration) (key : Text) (x : Time) (k : Text) (e : StateEntry)
    (m : Dict StateEntry) where
  oldest_take :
      (key == [] || ltb (e.created_at + ttl) x) ≡ true
      → oldest ttl key x ((k, e) ∷ m) ≡ oldest ttl k (e.created_at + ttl) m
  unfolding oldest
  oldest_take h = rw h

  oldest_skip :
      (key == [] || ltb (e.created_at + ttl) x) ≡ false
      → oldest ttl key x ((k, e) ∷ m) ≡ oldest ttl key x m
  unfolding oldest
  oldest_skip h = rw h

lookup_cons_ne :
    (r k : Text) (e : StateEntry) (m : Dict StateEntry)
    → lookup r m ≢ none
    → lookup r ((k, e) ∷ m) ≢ none
unfolding lookup
lookup_cons_ne r k e m h = ground arith

lookup_cons_eq :
    (r k : Text) (e : StateEntry) (m : Dict StateEntry) → r ≡ k → lookup r ((k, e) ∷ m) ≡ some e
unfolding lookup
lookup_cons_eq r k e m h = ground (arith, eq_iff k r)

lookup_cons_tail :
    (r k : Text) (e w : StateEntry) (m : Dict StateEntry)
    → lookup k m ≡ none
    → lookup r m ≡ some w
    → lookup r ((k, e) ∷ m) ≡ some w
unfolding lookup
lookup_cons_tail r k e w m d h = ground (arith, eq_iff k r)

-- The inner loop returns the key that it started from, or one of the map.
oldest_mem :
    (ttl : Duration) (key : Text) (x : Time) (m : Dict StateEntry)
    → (oldest ttl key x m ≡ key) ⊎ (lookup (oldest ttl key x m) m ≢ none)
oldest_mem ttl key x [] = inl (unfold oldest in refl)
oldest_mem ttl key x ((k, e) ∷ m) = elim (Bool-cases (key == [] || ltb (e.created_at + ttl) x)) [
  | inl t ↦ rw (oldest_take ttl key x k e m t) (elim (oldest_mem ttl k (e.created_at + ttl) m) [
    | inl h ↦ inr (λ n. cc (n, lookup_cons_eq (oldest ttl k (e.created_at + ttl) m) k e m h))
    | inr h ↦ inr (lookup_cons_ne _ k e m h)
  ])
  | inr t ↦
      rw (oldest_skip ttl key x k e m t)
        (elim (oldest_mem ttl key x m) [ inl h ↦ inl h | inr h ↦ inr (lookup_cons_ne _ k e m h) ])
]

-- `r` names an entry of the map that expires at `y`.
abbrev Expires : Duration → Dict StateEntry → Text → Time → Type 0
Expires ttl m r y = (e : StateEntry) × (lookup r m ≡ some e) × (y ≡ e.created_at + ttl)

-- From a key that is set, the loop finds the least expiry.
abbrev Least : Duration → Text → Time → Dict StateEntry → Text → Type 0
Least ttl key x m r =
    (y : Time) × (y ≤ x) × AllFrom ttl y m × (((r ≡ key) × (y ≡ x)) ⊎ Expires ttl m r y)

oldest-Least :
    (ttl : Duration) (key : Text) (x : Time) (m : Dict StateEntry)
    → key ≢ []
    → KeysNonempty m
    → Distinct m
    → Least ttl key x m (oldest ttl key x m)
oldest-Least ttl key x [] h ks d = (x, omega arith, tt, inl (unfold oldest in refl, refl))
oldest-Least ttl key x ((k, e) ∷ m) h ks d =
    elim (Bool-cases (key == [] || ltb (e.created_at + ttl) x)) [
      | inl t ↦
          rw (oldest_take ttl key x k e m t)
            (take t (oldest-Least ttl k (e.created_at + ttl) m ks.0 ks.1 d.1))
      | inr t ↦ rw (oldest_skip ttl key x k e m t) (skip t (oldest-Least ttl key x m h ks.1 d.1))
    ]
  where
    take :
        {r : Text}
        → (key == [] || ltb (e.created_at + ttl) x) ≡ true
        → Least ttl k (e.created_at + ttl) m r
        → Least ttl key x ((k, e) ∷ m) r
    take {r} t (y, le, a, inl (q, z)) =
        (y, ground (arith, eq_iff key []), (omega arith, a), inr (e, lookup_cons_eq r k e m q, z))
    take {r} t (y, le, a, inr (w, q, z)) = (
      y,
      ground (arith, eq_iff key []),
      (omega arith, a),
      inr (w, lookup_cons_tail r k e w m d.0 q, z),
    )

    skip :
        {r : Text}
        → (key == [] || ltb (e.created_at + ttl) x) ≡ false
        → Least ttl key x m r
        → Least ttl key x ((k, e) ∷ m) r
    skip {r} t (y, le, a, inl (q, z)) = (y, le, (ground arith, a), inl (q, z))
    skip {r} t (y, le, a, inr (w, q, z)) =
        (y, le, (ground arith, a), inr (w, lookup_cons_tail r k e w m d.0 q, z))

-- The entry that a round of the second loop deletes: one of the map that expires first.
unfoldable pub first_out : Duration → Dict StateEntry → Text
first_out ttl m = oldest ttl [] 0 m

pub first_out_mem :
    (ttl : Duration) (m : Dict StateEntry) → 0 < length m → lookup (first_out ttl m) m ≢ none
unfolding first_out
first_out_mem ttl [] h = absurd (omega arith)
first_out_mem ttl ((k, e) ∷ m) h =
    rw (oldest_take ttl [] 0 k e m (rw (eq_refl [])))
      (elim (oldest_mem ttl k (e.created_at + ttl) m) [
        | inl h ↦ λ n. cc (n, lookup_cons_eq (oldest ttl k (e.created_at + ttl) m) k e m h)
        | inr h ↦ lookup_cons_ne _ k e m h
      ])

-- No entry expires before the deleted one.
pub first_out_least :
    (ttl : Duration) (m : Dict StateEntry) (k k' : Text) (e e' : StateEntry)
    → KeysNonempty m
    → Distinct m
    → first_out ttl m ≡ k
    → lookup k m ≡ some e
    → lookup k' m ≡ some e'
    → e.created_at ≤ e'.created_at
unfolding first_out
first_out_least ttl [] k k' e e' ks d o h h' = unfold lookup in cc
first_out_least ttl ((j, w) ∷ m) k k' e e' ks d o h h' =
    least (oldest-Least ttl j (w.created_at + ttl) m ks.0 ks.1 d.1)
  where
    o' : oldest ttl j (w.created_at + ttl) m ≡ k
    o' = sym (oldest_take ttl [] 0 j w m (rw (eq_refl []))) ∙ o

    bound : {y : Time} → y ≤ w.created_at + ttl → AllFrom ttl y m → y ≤ e'.created_at + ttl
    bound {y} le a = AllFrom-lookup ttl y ((j, w) ∷ m) k' e' (le, a) h'

    least :
        Least ttl j (w.created_at + ttl) m (oldest ttl j (w.created_at + ttl) m)
        → e.created_at ≤ e'.created_at
    least (y, le, a, inl (q, z)) =
        let h1 : e ≡ w = ground (arith, lookup_cons_eq k j w m (sym o' ∙ q)) in
        let h2 : y ≤ e'.created_at + ttl = bound le a in ground arith
    least (y, le, a, inr (v, q, z)) =
        let h1 : e ≡ v =
          ground (arith, lookup_cons_tail k j w v m d.0 (ap (λ r. lookup r m) (sym o') ∙ q)) in
        let h2 : y ≤ e'.created_at + ttl = bound le a in ground arith
