-- ===== src/Rp/Construct/Fapi.antt =====
-- rp/rp.go: what a relying party with a FAPI profile can rely on once New has returned it.
use mathlib.Core.Path.{subst}
use lanyard.Base.{
  ℕ, ◌≤◌, ◌≡◌, refl, ◌≢◌, ◌⊎◌, inl, inr, Bool, true, false, not, ◌||◌, Option, none, some, [], Text,
  codes, ◌==◌, eq_iff, ok, fail_if-ok, fail_if-ok_last, Bool-cases, ltb→lt, lt→ltb, arith,
}
use lanyard.Rp.{
  Rp, KeyProvider, Profile, oidc, oauth2, fapi1_adv, fapi2_security, fapi2_message_signing,
  plain_fapi, is_fapi, unconstrained, mtls, dpop, SenderConstraint, plain, signed_non_repudiation,
  RequestMethod,
}
use lanyard.Rp.AuthMethod.{private_key_jwt, tls, self_signed_tls, has_key, has_certificate}
use lanyard.Rp.Endpoints.{par_endpoint}
use lanyard.Rp.Defaults.{
  violates_fapi, unprotected, unfit_key, is_unconstrained, unsupported_constraint,
  signing_algorithm, key_bits, is_fapi1_dpop,
}
use lanyard.Rp.Construct.{check, no_par_endpoint, mistyped_method, plain_responses, skips_issuer}

-- The profiles that demand pushed authorization requests.
abbrev pub is_fapi2 : Profile → Bool
is_fapi2 fapi2_security = true
is_fapi2 fapi2_message_signing = true
is_fapi2 _ = false

-- An RSA key is long enough, and the algorithm is one of the two.
pub record Fit (k : KeyProvider) : Type 0 where
  pub algorithm : (signing_algorithm k ≡ codes "PS256") ⊎ (signing_algorithm k ≡ codes "ES256")
  pub long : (bits : ℕ) → key_bits k ≡ some bits → 2048 ≤ bits

pub record FapiReady (r : Rp) : Type 0 where
  pub asymmetric :
      (r.resolved_auth_method ≡ private_key_jwt)
      ⊎ ((r.resolved_auth_method ≡ tls) ⊎ (r.resolved_auth_method ≡ self_signed_tls))
  pub protected :
      ((r.require_par ≡ true) × (par_endpoint r.provider r.resolved_auth_method ≢ []))
      ⊎ ((is_fapi2 r.profile ≡ false) × (r.request_method ≡ signed_non_repudiation))
  pub constrained :
      ((r.sender_constrain ≡ dpop) × (has_key r ≡ true) × (r.profile ≢ fapi1_adv))
      ⊎ ((r.sender_constrain ≡ mtls) × (has_certificate r ≡ true))
  pub fit : (k : KeyProvider) → r.client_key ≡ some k → Fit k

protected_by :
    (p : Profile) (par : Bool) (m : RequestMethod)
    → unprotected p par m ≡ false
    → (par ≡ true) ⊎ ((is_fapi2 p ≡ false) × (m ≡ signed_non_repudiation))
protected_by p true m h = inl refl
protected_by fapi2_security false m h = cc
protected_by fapi2_message_signing false m h = cc
protected_by oidc false signed_non_repudiation h = inr (refl, refl)
protected_by oauth2 false signed_non_repudiation h = inr (refl, refl)
protected_by fapi1_adv false signed_non_repudiation h = inr (refl, refl)
protected_by plain_fapi false signed_non_repudiation h = inr (refl, refl)
protected_by oidc false plain h = cc
protected_by oauth2 false plain h = cc
protected_by fapi1_adv false plain h = cc
protected_by plain_fapi false plain h = cc

not_fapi1 : (p : Profile) → is_fapi1_dpop p dpop ≡ false → p ≢ fapi1_adv
not_fapi1 p h q = let h' : is_fapi1_dpop fapi1_adv dpop ≡ false = rw q at h in cc

constrained_by :
    (r : Rp) (c : SenderConstraint)
    → is_unconstrained c ≡ false
    → unsupported_constraint c r ≡ false
    → is_fapi1_dpop r.profile c ≡ false
    → ((c ≡ dpop) × (has_key r ≡ true) × (r.profile ≢ fapi1_adv))
      ⊎ ((c ≡ mtls) × (has_certificate r ≡ true))
constrained_by r unconstrained u s f = cc
constrained_by r dpop u s f = inl (refl, ground arith, not_fapi1 r.profile f)
constrained_by r mtls u s f = inr (refl, ground arith)

of_unfit : (k : KeyProvider) → unfit_key (some k) ≡ false → Fit k
of_unfit k h = record {
  algorithm = elim (Bool-cases (signing_algorithm k == codes "PS256")) [
    | inl ps ↦ inl ((eq_iff _ _).0 ps)
    | inr other ↦ inr ((eq_iff _ _).0 (ground arith))
  ];
  long = λ bits q. let h' = rw q at h in ground (arith, ltb→lt bits 2048, lt→ltb bits 2048);
}

key_Fit : (o : Option KeyProvider) (k : KeyProvider) → unfit_key o ≡ false → o ≡ some k → Fit k
key_Fit none k h q = absurd (ground arith)
key_Fit (some j) k h q = let same : j ≡ k = cc in subst Fit same (of_unfit j h)

-- What `check` has seen.
pub record Checked (r : Rp) : Type 0 where
  pub par_served : no_par_endpoint r ≡ false
  pub jwt_responses : plain_responses r ≡ false
  pub issuer_checked : skips_issuer r ≡ false
  pub certified : is_fapi1_dpop r.profile r.sender_constrain ≡ false
  pub sound : violates_fapi r ≡ false
  pub supported : unsupported_constraint r.sender_constrain r ≡ false

pub check-Checked : (r : Rp) → check r ≡ ok tt → Checked r
unfolding check
check-Checked r h =
    let (a, h1) = fail_if-ok (r.provider.authorization_endpoint == []) _ _ h in
    let (b, h2) = fail_if-ok (no_par_endpoint r) _ _ h1 in
    let (c, h3) = fail_if-ok (mistyped_method r) _ _ h2 in
    let (d, h4) = fail_if-ok (plain_responses r) _ _ h3 in
    let (e, h5) = fail_if-ok (skips_issuer r) _ _ h4 in
    let (f, h6) = fail_if-ok (is_fapi1_dpop r.profile r.sender_constrain) _ _ h5 in
    let (g, h7) = fail_if-ok (violates_fapi r) _ _ h6 in
    record {
      par_served = b;
      jwt_responses = d;
      issuer_checked = e;
      certified = f;
      sound = g;
      supported = fail_if-ok_last (unsupported_constraint r.sender_constrain r) _ h7;
    }

or_split : (a b : Bool) → a || b ≡ false → (a ≡ false) × (b ≡ false)
or_split a b h = ground arith

one_of : (m a b c : Text) → not (m == a || m == b || m == c) ≡ false → (m ≡ a) ⊎ ((m ≡ b) ⊎ (m ≡ c))
one_of m a b c h = ground (arith, eq_iff m a, eq_iff m b, eq_iff m c)

pub Checked-FapiReady : (r : Rp) → Checked r → is_fapi r.profile ≡ true → FapiReady r
unfolding violates_fapi
Checked-FapiReady r c fapi =
    let m = r.resolved_auth_method in
    let bad = not (m == private_key_jwt || m == tls || m == self_signed_tls) in
    let open_ = unprotected r.profile r.require_par r.request_method in
    let loose = is_unconstrained r.sender_constrain in
    let v : bad || open_ || loose || unfit_key r.client_key ≡ false =
      rw (fapi, violates_fapi) at c.sound in
    let (v1, fit) = or_split (bad || open_ || loose) (unfit_key r.client_key) v in
    let (v2, bound) = or_split (bad || open_) loose v1 in
    let (v3, closed) = or_split bad open_ v2 in
    record {
      asymmetric = one_of m private_key_jwt tls self_signed_tls v3;
      protected = served (protected_by r.profile r.require_par r.request_method closed);
      constrained = constrained_by r r.sender_constrain bound c.supported c.certified;
      fit = λ k q. key_Fit r.client_key k fit q;
    }
  where
    served :
        (r.require_par ≡ true)
          ⊎ ((is_fapi2 r.profile ≡ false) × (r.request_method ≡ signed_non_repudiation))
        → ((r.require_par ≡ true) × (par_endpoint r.provider r.resolved_auth_method ≢ []))
          ⊎ ((is_fapi2 r.profile ≡ false) × (r.request_method ≡ signed_non_repudiation))
    served (inr s) = inr s
    served (inl par) =
        let h : no_par_endpoint r ≡ false = c.par_served in
        let here : (par_endpoint r.provider r.resolved_auth_method == []) ≡ false = ground arith in
        inl (par, λ e. ground (arith, eq_iff (par_endpoint r.provider r.resolved_auth_method) []))
