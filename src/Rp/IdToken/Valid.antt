-- ===== src/Rp/IdToken/Valid.antt =====
-- rp/idtoken.go: the claims that are accepted are those that OpenID Connect asks for.
use lanyard.Base.{
  ℕ, ◌≤◌, ◌≡◌, refl, ◌≢◌, ◌↔◌, ◌⊎◌, Bool, true, false, not, ◌&&◌, some, List, [], ◌∷◌, Text, ◌==◌,
  eq_iff, ltb, any, is_empty, length, ok, fail_if-ok, fail_if-ok_last, or_fail-ok, arith,
}
use lanyard.Base.Int.{ℤ, pos, sub_ℕ, ltb_ℤ, ◌+ℤ◌, ◌≤ℤ◌}
use lanyard.Http.{Time}
use lanyard.Rp.{Rp, is_fapi}
use lanyard.Rp.Jose.{Claims}
use lanyard.Rp.IdToken.{FlowIdentity, unix, validate_claims}

-- The text is one of the list.
abbrev pub IsOneOf : Text → List Text → Type 0
IsOneOf a [] = ⊥
IsOneOf a (x ∷ xs) = (x ≡ a) ⊎ IsOneOf a xs

-- The conditions of OpenID Connect Core 3.1.3.7 on the claims, at a time and within a clock skew. The
-- times are those that time.Unix makes of exp and iat, so they wrap from 2^63 - 62135596800 on.
pub record IsAccepted (r : Rp) (now : Time) (c : Claims) (nonce : Text) (id : FlowIdentity)
    : Type 0 where
  pub issuer_is : c.issuer ≡ id.issuer
  pub has_subject : c.subject ≢ []
  pub for_client : IsOneOf id.client_id c.aud
  pub expires : (e : ℤ) × (c.exp ≡ some e) × (pos now ≤ℤ unix e +ℤ pos r.clock_skew)
  pub issued :
      (i : ℤ) × (c.iat ≡ some i)
      × (unix i ≤ℤ pos now +ℤ pos r.clock_skew)
      × (is_fapi r.profile ≡ true → pos now ≤ℤ unix i +ℤ pos r.clock_skew)
  pub nonce_is : (nonce ≡ []) ⊎ (c.nonce ≡ nonce)
  pub party_is : (length c.aud ≤ 1) ⊎ (c.azp ≡ id.client_id)

any-IsOneOf : (a : Text) (xs : List Text) → (any (λ x. x == a) xs ≡ true) ↔ IsOneOf a xs
any-IsOneOf a [] = (λ h. cc, λ h. absurd h)
any-IsOneOf a (x ∷ xs) = ground (arith, eq_iff x a, any-IsOneOf a xs)

-- What each guard of the code says when it lets the claims pass.
pub eq_test : (a b : Text) → (not (a == b) ≡ false) ↔ (a ≡ b)
eq_test a b = ground (arith, eq_iff a b)

pub set_test : (a : Text) → ((a == []) ≡ false) ↔ (a ≢ [])
set_test a = ground (arith, eq_iff a [])

audience_test : (a : Text) (xs : List Text) → (not (any (λ x. x == a) xs) ≡ false) ↔ IsOneOf a xs
audience_test a xs = ground (arith, any-IsOneOf a xs)

empty_test : (a : Text) (xs : List Text) → IsOneOf a xs → is_empty xs ≡ false
empty_test a [] h = absurd h
empty_test a (x ∷ xs) h = refl

late_test : (a b : ℤ) → (ltb_ℤ a b ≡ false) ↔ (b ≤ℤ a)
late_test a b = ground arith

age_test :
    (fapi : Bool) (i : ℤ) (now skew : ℕ)
    → (fapi && ltb_ℤ i (sub_ℕ now skew) ≡ false) ↔ (fapi ≡ true → pos now ≤ℤ i +ℤ pos skew)
unfolding ◌+ℤ◌
age_test fapi i now skew = ground arith

nonce_test :
    (expected nonce : Text)
    → (not (expected == []) && not (nonce == expected) ≡ false)
      ↔ ((expected ≡ []) ⊎ (nonce ≡ expected))
nonce_test expected nonce = ground (arith, eq_iff expected [], eq_iff nonce expected)

party_test :
    (aud : List Text) (azp client : Text)
    → (ltb 1 (length aud) && not (azp == client) ≡ false) ↔ ((length aud ≤ 1) ⊎ (azp ≡ client))
party_test aud azp client = ground (arith, eq_iff azp client)

validate_claims_sound :
    (r : Rp) (now : Time) (c : Claims) (nonce : Text) (id : FlowIdentity)
    → validate_claims r now c nonce id ≡ ok tt
    → IsAccepted r now c nonce id
unfolding validate_claims
validate_claims_sound r now c nonce id h =
    let (t1, h1) = fail_if-ok _ _ _ h in
    let (t2, h2) = fail_if-ok _ _ _ h1 in
    let (t3, h3) = fail_if-ok _ _ _ h2 in
    let (t4, h4) = fail_if-ok _ _ _ h3 in
    let (e, te, h5) = or_fail-ok _ _ _ h4 in
    let (i, ti, h6) = or_fail-ok _ _ _ h5 in
    let (t7, h7) = fail_if-ok _ _ _ h6 in
    let (t8, h8) = fail_if-ok _ _ _ h7 in
    let (t9, h9) = fail_if-ok _ _ _ h8 in
    let (ta, ha) = fail_if-ok _ _ _ h9 in
    record {
      issuer_is = (eq_test c.issuer id.issuer).0 t1;
      has_subject = (set_test c.subject).0 t2;
      for_client = (audience_test id.client_id c.aud).0 t4;
      expires = (e, te, (late_test (unix e +ℤ pos r.clock_skew) (pos now)).0 t7);
      issued = (
        i,
        ti,
        (late_test (pos now +ℤ pos r.clock_skew) (unix i)).0 t8,
        (age_test (is_fapi r.profile) (unix i) now r.clock_skew).0 t9,
      );
      nonce_is = (nonce_test nonce c.nonce).0 ta;
      party_is = (party_test c.aud c.azp id.client_id).0 (fail_if-ok_last _ _ ha);
    }

validate_claims_complete :
    (r : Rp) (now : Time) (c : Claims) (nonce : Text) (id : FlowIdentity)
    → IsAccepted r now c nonce id
    → validate_claims r now c nonce id ≡ ok tt
unfolding validate_claims
validate_claims_complete r now c nonce id a =
    let (e, te, in_time) = a.expires in
    let (i, ti, past, recent) = a.issued in
    rw
      (
        (eq_test c.issuer id.issuer).1 a.issuer_is,
        (set_test c.subject).1 a.has_subject,
        empty_test id.client_id c.aud a.for_client,
        (audience_test id.client_id c.aud).1 a.for_client,
        te,
        ti,
      )
      (rw ((late_test (unix e +ℤ pos r.clock_skew) (pos now)).1 in_time) (
        rw ((late_test (pos now +ℤ pos r.clock_skew) (unix i)).1 past) (
          rw ((age_test (is_fapi r.profile) (unix i) now r.clock_skew).1 recent) (
            rw (
              (nonce_test nonce c.nonce).1 a.nonce_is,
              (party_test c.aud c.azp id.client_id).1 a.party_is,
            )))))

-- The code accepts a set of claims exactly if the issuer is the flow's, there is a subject, the client
-- is in the audience, the time that time.Unix makes of exp is not past and that of iat is not in the
-- future (under a FAPI profile: nor long ago), all within the clock skew, the nonce is the expected one
-- if there is one, and the client is the authorized party where there are several audiences. The time
-- of an exp or iat is the number of seconds of the claim, wrapped as an int64 counted from Go's zero
-- time, so that a claim near 2^63 stands for a time long past.
pub validate_claims_iff :
    (r : Rp) (now : Time) (c : Claims) (nonce : Text) (id : FlowIdentity)
    → (validate_claims r now c nonce id ≡ ok tt) ↔ IsAccepted r now c nonce id
validate_claims_iff r now c nonce id =
    (validate_claims_sound r now c nonce id, validate_claims_complete r now c nonce id)
