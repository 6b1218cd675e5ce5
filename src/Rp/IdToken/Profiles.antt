-- ===== src/Rp/IdToken/Profiles.antt =====
-- rp/idtoken.go: the FAPI profiles, and unsecured tokens of a flow with its own client.
use lanyard.Base.{
  ◌≡◌, ◌≢◌, ◌⊎◌, inl, inr, true, false, some, List, [], ◌∷◌, Text, codes, ◌==◌, eq_iff, any, ok,
  err, ◌>>◌, arith, ap,
}
use lanyard.Http.{Time}
use lanyard.Rp.{Rp, is_fapi, audience_mismatch}
use lanyard.Rp.Jose.{Jose, Header, Claims}
use lanyard.Rp.IdToken.{FlowIdentity, validate_claims}
use lanyard.Rp.IdToken.Valid.{eq_test, set_test}
use lanyard.Rp.IdToken.Verify.{
  KeySets, fapi_algs, none_alg, outside, validate_parsed, validate_unsecured, validate_id_token,
  own_identity,
}
use lanyard.Rp.IdToken.Policy.{IsSigned, validate_id_token_sound}

one_of_fapi :
    (a : Text) → any (λ x. x == a) fapi_algs ≡ true → (a ≡ codes "PS256") ⊎ (a ≡ codes "ES256")
one_of_fapi a h = ground (arith, eq_iff (codes "PS256") a, eq_iff (codes "ES256") a)

-- Under a FAPI profile an accepted ID token is signed by PS256 or ES256 and verified by a key of the
-- provider, whatever the options and the advertised algorithms.
pub fapi_id_token-IsSigned :
    (j : Jose) (r : Rp) (now : Time) (sets : KeySets) (raw nonce jwks_url : Text)
    (provider_algs : List Text) (id : FlowIdentity) (c : Claims)
    → is_fapi r.profile ≡ true
    → validate_id_token j r now sets raw nonce jwks_url provider_algs id ≡ ok c
    → (t : j.Token) × (h : Header) × (hs : List Header) × (j.headers t ≡ h ∷ hs)
      × ((h.algorithm ≡ codes "PS256") ⊎ (h.algorithm ≡ codes "ES256"))
      × IsSigned j r now sets t c nonce jwks_url id
fapi_id_token-IsSigned j r now sets raw nonce jwks_url provider_algs id c fapi e =
    let (plain, t, h, hs, decrypted, parsed, has, inside, kind) =
      validate_id_token_sound j r now sets raw nonce jwks_url provider_algs id c e in
    let parsed' : j.parse_signed plain fapi_algs ≡ some t = rw fapi at parsed in
    (
      t,
      h,
      hs,
      has,
      one_of_fapi h.algorithm (j.parse_signed_alg plain fapi_algs t h hs parsed' has),
      elim kind [ inl (bare, (plain', allowed, got, accepted)) ↦ cc | inr (signed, s) ↦ s ],
    )

ne_test : (a b : Text) → a ≢ b → (a == b) ≡ false
ne_test a b h = ground (arith, eq_iff a b)

wrong_audience :
    (r : Rp) (now : Time) (c : Claims) (nonce : Text) (id : FlowIdentity) (a : Text)
    → c.issuer ≡ id.issuer
    → c.subject ≢ []
    → c.aud ≡ a ∷ []
    → a ≢ id.client_id
    → validate_claims r now c nonce id ≡ err audience_mismatch
unfolding validate_claims
wrong_audience r now c nonce id a iss sub aud other = rw (
  (eq_test c.issuer id.issuer).1 iss,
  (set_test c.subject).1 sub,
  aud,
  ne_test a id.client_id other,
)

-- An unsecured token is checked for the client of the configuration, not for that of the flow: where
-- the saved state names another client, a token issued to that client alone is refused.
pub unsecured_ignores_flow_client :
    (j : Jose) (r : Rp) (now : Time) (sets : KeySets) (t : j.Token) (h : Header)
    (nonce jwks_url : Text) (provider_algs : List Text) (id : FlowIdentity) (c : Claims)
    → outside provider_algs h.algorithm ≡ false
    → h.algorithm ≡ none_alg
    → is_fapi r.profile ≡ false
    → r.allow_unsecured_id_tokens ≡ true
    → j.unsafe_claims t ≡ some c
    → c.issuer ≡ r.issuer
    → c.subject ≢ []
    → c.aud ≡ id.client_id ∷ []
    → id.client_id ≢ r.client_id
    → validate_parsed j r now sets t h nonce jwks_url provider_algs id ≡ err audience_mismatch
unfolding validate_parsed validate_unsecured
unsecured_ignores_flow_client j r now sets t h nonce jwks_url provider_algs id c inside bare plain
      allowed got iss sub aud other =
    simp (inside, (eq_iff h.algorithm none_alg).1 bare, plain, allowed, got)
      (ap (λ m. m >> ok c)
        (wrong_audience r now c nonce (own_identity r) id.client_id iss sub aud other))
