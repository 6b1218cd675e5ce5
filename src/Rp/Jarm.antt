-- ===== src/Rp/Jarm.antt =====
-- rp/jarm.go: signed authorization responses.
use lanyard.Base.{
  Bool, false, not, none, some, List, [], ◌∷◌, Text, codes, ◌==◌, trim_space, to_lower, contains,
  eqb, any, is_empty, Except, ok, err, ◌>>=◌, ◌>>◌, fail_if, or_fail, if◌then◌else◌,
}
use lanyard.Base.Int.{pos, ltb_ℤ, ◌+ℤ◌}
use lanyard.Http.{Time}
use lanyard.Rp.{Rp, is_fapi, RpError, invalid_state}
use lanyard.Rp.Jose.{Jose, Header, JarmClaims}
use lanyard.Rp.IdToken.{unix}
use lanyard.Rp.IdToken.Verify.{KeySource, KeySets, fapi_algs, none_alg, outside, scan, first_header}

abbrev pub jarm_algs : List Text
jarm_algs =
    codes "RS256"
    ∷ codes "RS384"
    ∷ codes "RS512"
    ∷ codes "PS256"
    ∷ codes "PS384"
    ∷ codes "PS512"
    ∷ codes "ES256"
    ∷ codes "ES384"
    ∷ codes "ES512"
    ∷ []

-- `validateJARMClaims` at the time `now`; every refusal wraps ErrInvalidState.
unfoldable pub validate_jarm_claims : Rp → Time → JarmClaims → Except RpError (Unit {0})
validate_jarm_claims r now c = do
  fail_if (c.iss == []) invalid_state
  fail_if (is_empty c.aud) invalid_state
  fail_if (not (any (λ aud. aud == r.client_id) c.aud)) invalid_state
  exp ← or_fail c.exp invalid_state
  fail_if (ltb_ℤ (unix exp +ℤ pos r.clock_skew) (pos now)) invalid_state
  fail_if (elim c.iat [ none ↦ false | some iat ↦ ltb_ℤ (pos now +ℤ pos r.clock_skew) (unix iat) ])
      invalid_state

module _ (j : Jose) where
  open j use {Token, parse_signed, headers, jarm_claims}

  -- The claims by the key that the header names, or by the only key that verifies the response.
  unfoldable pub verify_jarm : Token → Header → KeySource → Except RpError JarmClaims
  verify_jarm t h set =
      if not (h.key_id == [])
      then elim (set.key h.key_id) [
        | none ↦ err invalid_state
        | some k ↦ or_fail (jarm_claims t k.material) invalid_state
      ]
      else elim set.keys [
        | none ↦ err invalid_state
        | some ks ↦
            let (matched, last) = scan (jarm_claims t) ks 0 none in
            if not (eqb matched 1) then err invalid_state else or_fail last invalid_state
      ]

  unfoldable pub check_jarm : Rp → Time → KeySets → Token → Header → Except RpError JarmClaims
  check_jarm r now sets t h = do
    fail_if (h.algorithm == none_alg) invalid_state
    fail_if (outside r.provider.authorization_signing_alg_values_supported h.algorithm)
        invalid_state
    fail_if (r.provider.jwks_uri == []) invalid_state
    set ← or_fail (sets.by_uri r.provider.jwks_uri) invalid_state
    claims ← verify_jarm t h set
    validate_jarm_claims r now claims
    ok claims

  -- `parseJARMResponse`
  unfoldable pub parse_jarm_response : Rp → Time → KeySets → Text → Except RpError JarmClaims
  parse_jarm_response r now sets raw = do
    fail_if (raw == []) invalid_state
    t ←
        or_fail (parse_signed raw (if is_fapi r.profile then fapi_algs else jarm_algs))
          invalid_state
    first_header (headers t) (err invalid_state) (check_jarm r now sets t)

-- `isJARMResponse`, of the `response` parameter
unfoldable pub is_jarm_response : Text → Bool
is_jarm_response response = not (trim_space response == [])

unfoldable pub requires_jarm_response : Rp → Bool
requires_jarm_response r = contains (to_lower r.response_mode) (codes "jwt")
