-- ===== src/Rp/IdToken/Policy.antt =====
-- rp/idtoken.go: what an accepted ID token has gone through, from the raw token on.
use mathlib.Core.Path.{subst}
use lanyard.Base.{
  ◌≡◌, refl, ◌≢◌, ◌⊎◌, inl, inr, true, false, none, some, List, [], ◌∷◌, Text, ◌==◌, eq_iff, ok,
  err, ◌>>◌, >>=-eq-ok, or_fail-ok, fail_if-ok, arith, Bool-cases, if◌then◌else◌,
}
use lanyard.Http.{Time}
use lanyard.Rp.{Rp, is_fapi, no_headers, alg_not_advertised, no_key_set, unsecured, not_parsed}
use lanyard.Rp.Jose.{Jose, Header, Claims}
use lanyard.Rp.IdToken.{FlowIdentity, validate_claims}
use lanyard.Rp.IdToken.Valid.{IsAccepted, validate_claims_iff}
use lanyard.Rp.IdToken.Verify.{
  KeySource, KeySets, fapi_algs, none_alg, supported_algs, own_identity, outside, first_header,
  decrypt_if_needed, verify_or_retry, provider_keys, validate_signed, validate_unsecured,
  validate_parsed, validate_id_token,
}
use lanyard.Rp.IdToken.Sound.{VerifiedBy, verify_or_retry-VerifiedBy}

-- The last two steps of both parts.
checked :
    (r : Rp) (now : Time) (c' c : Claims) (nonce : Text) (id : FlowIdentity)
    → (validate_claims r now c' nonce id >> ok c') ≡ ok c
    → (c' ≡ c) × IsAccepted r now c nonce id
checked r now c' c nonce id e =
    let (u, valid, same) = >>=-eq-ok (validate_claims r now c' nonce id) (λ _. ok c') e in
    let q : c' ≡ c = cc in
    (
      q,
      subst (λ x. IsAccepted r now x nonce id) q ((validate_claims_iff r now c' nonce id).0 valid),
    )

module _ (j : Jose) where
  open j use {Token, parse_signed, headers, unsafe_claims}

  -- A token with a signature: a key of the provider's set verifies it, or one of a set that was loaded
  -- again from the given URI, and the claims are those that the flow asks for.
  abbrev pub IsSigned : Rp → Time → KeySets → Token → Claims → Text → Text → FlowIdentity → Type 0
  IsSigned r now sets t c nonce jwks_url id =
      (set : KeySource) × ((provider_keys j r sets ≡ some set)
        ⊎ (sets.uncached jwks_url ≡ some set))
      × VerifiedBy j t set c
      × IsAccepted r now c nonce id

  -- One without: no FAPI profile, the client has opted in, and the claims are checked for the identity
  -- of the client itself.
  abbrev pub IsUnsecured : Rp → Time → Token → Claims → Text → Type 0
  IsUnsecured r now t c nonce =
      (is_fapi r.profile ≡ false)
      × (r.allow_unsecured_id_tokens ≡ true)
      × (unsafe_claims t ≡ some c)
      × IsAccepted r now c nonce (own_identity r)

  validate_signed-IsSigned :
      (r : Rp) (now : Time) (sets : KeySets) (t : Token) (h : Header) (c : Claims)
      (nonce jwks_url : Text) (id : FlowIdentity)
      → validate_signed j r now sets t h nonce jwks_url id ≡ ok c
      → IsSigned r now sets t c nonce jwks_url id
  unfolding validate_signed
  validate_signed-IsSigned r now sets t h c nonce jwks_url id e =
      let (set, loaded, e1) = or_fail-ok (provider_keys j r sets) no_key_set _ e in
      let (c', verified, e2) =
        >>=-eq-ok
          (verify_or_retry j t h set (if jwks_url == [] then none else sets.uncached jwks_url)) _
          e1 in
      let (same, accepted) = checked r now c' c nonce id e2 in
      elim (verify_or_retry-VerifiedBy j t h set _ c' verified) [
        | inl (m, from, v) ↦ (set, inl loaded, (m, from, rw (← same) v), accepted)
        | inr (again, fresh, (m, from, v)) ↦
            (again, inr (uncached jwks_url again fresh), (m, from, rw (← same) v), accepted)
      ]
    where
      uncached :
          (url : Text) (again : KeySource)
          → (if url == [] then none else sets.uncached url) ≡ some again
          → sets.uncached url ≡ some again
      uncached url again q = ground arith

  validate_unsecured-IsUnsecured :
      (r : Rp) (now : Time) (t : Token) (c : Claims) (nonce : Text)
      → validate_unsecured j r now t nonce ≡ ok c
      → IsUnsecured r now t c nonce
  unfolding validate_unsecured
  validate_unsecured-IsUnsecured r now t c nonce e =
      let (plain, e1) = fail_if-ok _ unsecured _ e in
      let (allowed, e2) = fail_if-ok _ unsecured _ e1 in
      let (c', got, e3) = or_fail-ok (unsafe_claims t) not_parsed _ e2 in
      let (same, accepted) = checked r now c' c nonce (own_identity r) e3 in
      (plain, ground arith, rw (← same) got, accepted)

  validate_parsed-cases :
      (r : Rp) (now : Time) (sets : KeySets) (t : Token) (h : Header) (c : Claims)
      (nonce jwks_url : Text) (provider_algs : List Text) (id : FlowIdentity)
      → validate_parsed j r now sets t h nonce jwks_url provider_algs id ≡ ok c
      → (outside provider_algs h.algorithm ≡ false)
        × (((h.algorithm ≡ none_alg) × IsUnsecured r now t c nonce)
            ⊎ ((h.algorithm ≢ none_alg) × IsSigned r now sets t c nonce jwks_url id))
  unfolding validate_parsed
  validate_parsed-cases r now sets t h c nonce jwks_url provider_algs id e =
      elim (Bool-cases (outside provider_algs h.algorithm)) [
        | inl out ↦ let e' : err alg_not_advertised ≡ ok c = rw (out, validate_parsed) at e in cc
        | inr inside ↦ elim (Bool-cases (h.algorithm == none_alg)) [
          | inl bare ↦ (
            inside,
            inl (
              (eq_iff h.algorithm none_alg).0 bare,
              validate_unsecured-IsUnsecured r now t c nonce
                  (rw (inside, bare, validate_parsed) at e),
            ),
          )
          | inr signed ↦ (
            inside,
            inr (
              λ q. cc ((eq_iff h.algorithm none_alg).1 q, signed),
              validate_signed-IsSigned r now sets t h c nonce jwks_url id
                  (rw (inside, signed, validate_parsed) at e),
            ),
          )
        ]
      ]

  -- An accepted ID token, decrypted if it was encrypted, was parsed with the algorithms of the
  -- profile; its algorithm is one that the provider advertises, if it advertises any; and it is signed,
  -- or it is unsecured where that is allowed. Either way its claims meet the conditions of OpenID Connect
  -- at the times that time.Unix makes of exp and iat, which wrap for claims near 2^63; a signed one for
  -- the identity of the flow, and an unsecured one for that of the configured client.
  pub validate_id_token_sound :
      (r : Rp) (now : Time) (sets : KeySets) (raw nonce jwks_url : Text) (provider_algs : List Text)
      (id : FlowIdentity) (c : Claims)
      → validate_id_token j r now sets raw nonce jwks_url provider_algs id ≡ ok c
      → (plain : Text) × (t : Token) × (h : Header) × (hs : List Header) × (decrypt_if_needed j r
            raw
          ≡ ok plain)
        × (parse_signed plain (if is_fapi r.profile then fapi_algs else supported_algs) ≡ some t)
        × (headers t ≡ h ∷ hs)
        × (outside provider_algs h.algorithm ≡ false)
        × (((h.algorithm ≡ none_alg) × IsUnsecured r now t c nonce)
            ⊎ ((h.algorithm ≢ none_alg) × IsSigned r now sets t c nonce jwks_url id))
  unfolding validate_id_token
  validate_id_token_sound r now sets raw nonce jwks_url provider_algs id c e =
      let (plain, decrypted, e1) = >>=-eq-ok (decrypt_if_needed j r raw) _ e in
      let (t, parsed, e2) =
        or_fail-ok (parse_signed plain (if is_fapi r.profile then fapi_algs else supported_algs))
          not_parsed _ e1 in
      let (h, hs, has, e3) = first t (headers t) e2 in
      let (inside, kind) =
        validate_parsed-cases r now sets t h c nonce jwks_url provider_algs id e3 in
      (plain, t, h, hs, decrypted, parsed, has, inside, kind)
    where
      first :
          (t : Token) (l : List Header)
          → first_header l
              (err no_headers)
              (λ h. validate_parsed j r now sets t h nonce jwks_url provider_algs id)
            ≡ ok c
          → (h : Header) × (hs : List Header) × (l ≡ h ∷ hs)
            × (validate_parsed j r now sets t h nonce jwks_url provider_algs id ≡ ok c)
      first t [] q = cc
      first t (h ∷ hs) q = (h, hs, refl, q)
