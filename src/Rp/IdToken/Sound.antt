-- ===== src/Rp/IdToken/Sound.antt =====
-- rp/idtoken.go: what an accepted ID token has gone through.
use lanyard.Base.{
  ℕ, ◌+◌, ◌≡◌, refl, ◌∙◌, ◌↔◌, ◌⊎◌, inl, inr, not, Option, none, some, List, [], ◌∷◌, Text, ◌==◌,
  eqb, length, ok, err, or_fail-eq-ok, or_fail, arith, Bool-cases, Option-cases, if◌then◌else◌,
  Except-cases,
}
use lanyard.Rp.{missing_kid, key_not_found, bad_signature, no_key_set}
use lanyard.Rp.Jose.{Jose, Header, Jwk, Claims}
use lanyard.Rp.IdToken.Verify.{
  KeySource, scan, usable, verify_without_kid, verify_signed, verify_or_retry,
}

-- What the keys for signing decode of the token: one entry for each key that verifies it.
unfoldable pub matching : {A : Type 0} → (Text → Option A) → List Jwk → List A
matching verify [] = []
matching verify (k ∷ ks) = elim (usable verify k) [
  | none ↦ matching verify ks
  | some c ↦ c ∷ matching verify ks
]

abbrev pub last_or : {A : Type 0} → Option A → List A → Option A
last_or o [] = o
last_or o (c ∷ cs) = last_or (some c) cs

scan_lem :
    {A : Type 0} (verify : Text → Option A) (ks : List Jwk) (n : ℕ) (o : Option A)
    → scan verify ks n o ≡ (n + length (matching verify ks), last_or o (matching verify ks))
unfolding scan matching
scan_lem verify [] n o = ground arith
scan_lem verify (k ∷ ks) n o = elim (Option-cases (usable verify k)) [
  | inl q ↦ rw (q, matching, scan) (scan_lem verify ks n o)
  | inr (c, q) ↦ rw (q, matching, scan) (ground (arith, scan_lem verify ks (n + 1) (some c)))
]

only_one :
    (m : List Claims) (c : Claims)
    → ((if not (eqb (0 + length m) 1)
          then err missing_kid
          else or_fail (last_or none m) missing_kid)
        ≡ ok c)
      ↔ (m ≡ c ∷ [])
only_one [] c = ground arith
only_one (a ∷ []) c = ground arith
only_one (a ∷ b ∷ m) c = (λ h. ground arith, λ h. ground arith)

-- Without a key id, the token is accepted exactly if one of the keys for signing verifies it and no
-- other does.
pub verify_without_kid_iff :
    (j : Jose) (t : j.Token) (set : KeySource) (ks : List Jwk) (c : Claims)
    → set.keys ≡ some ks
    → (verify_without_kid j t set ≡ ok c) ↔ (matching (j.id_claims t) ks ≡ c ∷ [])
unfolding verify_without_kid
verify_without_kid_iff j t set ks c e =
    rw (e, verify_without_kid, scan_lem (j.id_claims t) ks 0 none)
      (only_one (matching (j.id_claims t) ks) c)

-- The key set has handed out this key material, by a key id or in its list.
abbrev HasKey : Text → List Jwk → Type 0
HasKey m [] = ⊥
HasKey m (k ∷ ks) = (k.material ≡ m) ⊎ HasKey m ks

abbrev pub FromSet : KeySource → Text → Type 0
FromSet set m =
    ((kid : Text) × (k : Jwk) × (set.key kid ≡ some k) × (k.material ≡ m))
    ⊎ ((ks : List Jwk) × (set.keys ≡ some ks) × HasKey m ks)

-- A key of the set verifies the token, and decodes it to these claims.
abbrev pub VerifiedBy : (j : Jose) → j.Token → KeySource → Claims → Type 0
VerifiedBy j t set c = (m : Text) × FromSet set m × (j.id_claims t m ≡ some c)

matching-HasKey :
    (verify : Text → Option Claims) (ks : List Jwk) (c : Claims) (cs : List Claims)
    → matching verify ks ≡ c ∷ cs
    → (m : Text) × HasKey m ks × (verify m ≡ some c)
unfolding matching
matching-HasKey verify [] c cs h = cc
matching-HasKey verify (k ∷ ks) c cs h = elim (Option-cases (usable verify k)) [
  | inl q ↦
      let (m, inside, v) = matching-HasKey verify ks c cs (rw (q, matching) at h) in
      (m, inr inside, v)
  | inr (a, q) ↦
      let same : a ∷ matching verify ks ≡ c ∷ cs = rw (q, matching) at h in
      (k.material, inl refl, unfold usable in ground arith)
]

verify_signed-VerifiedBy :
    (j : Jose) (t : j.Token) (h : Header) (set : KeySource) (c : Claims)
    → verify_signed j t h set ≡ ok c
    → VerifiedBy j t set c
unfolding verify_signed verify_without_kid
verify_signed-VerifiedBy j t h set c e = elim (Bool-cases (h.key_id == [])) [
  | inl anonymous ↦ without (rw (anonymous, verify_signed) at e)
  | inr named ↦ elim (Option-cases (set.key h.key_id)) [
    | inl miss ↦ let e' : err key_not_found ≡ ok c = rw (named, miss, verify_signed) at e in cc
    | inr (k, hit) ↦
        let e' : or_fail (j.id_claims t k.material) bad_signature ≡ ok c =
          rw (named, hit, verify_signed) at e in
        (k.material, inl (h.key_id, k, hit, refl), or_fail-eq-ok _ _ e')
  ]
]
  where
    without : verify_without_kid j t set ≡ ok c → VerifiedBy j t set c
    without w = elim (Option-cases set.keys) [
      | inl miss ↦ let w' : err no_key_set ≡ ok c = rw (miss, verify_without_kid) at w in cc
      | inr (ks, hit) ↦
          let (m, inside, v) =
            matching-HasKey (j.id_claims t) ks c []
              ((verify_without_kid_iff j t set ks c hit).0 w) in
          (m, inr (ks, hit, inside), v)
    ]

-- Either of the two tries.
pub verify_or_retry-VerifiedBy :
    (j : Jose) (t : j.Token) (h : Header) (set : KeySource) (fresh : Option KeySource) (c : Claims)
    → verify_or_retry j t h set fresh ≡ ok c
    → VerifiedBy j t set c ⊎ ((again : KeySource) × (fresh ≡ some again) × VerifiedBy j t again c)
unfolding verify_or_retry
verify_or_retry-VerifiedBy j t h set fresh c e = elim (Except-cases (verify_signed j t h set)) [
  | inl (a, q) ↦
      let e' : ok a ≡ ok c = rw (q, verify_or_retry) at e in
      inl (verify_signed-VerifiedBy j t h set c (q ∙ e'))
  | inr (x, q) ↦ elim (Option-cases fresh) [
    | inl n ↦ let e' : err x ≡ ok c = rw (q, n, verify_or_retry) at e in cc
    | inr (again, s) ↦
        inr (again, s, verify_signed-VerifiedBy j t h again c (rw (q, s, verify_or_retry) at e))
  ]
]
