-- ===== src/Rp/Callback.antt =====
-- rp/callback.go: the callback of the authorization code flow.
pub mod Steps
pub mod Complete
pub mod Replay
pub mod Issuer
pub mod Identity
use lanyard.Base.{
  ℕ, ◌≡◌, Bool, true, false, not, ◌&&◌, ◌||◌, Option, none, some, List, [], ◌∷◌, Text, codes, ◌==◌,
  equal_fold, trim_space, has_prefix, count, eqb, any, Except, ok, err, ◌>>=◌, ◌>>◌, fail_if,
  or_fail, if◌then◌else◌,
}
use lanyard.Base.Maps.{Dict, lookup}
use lanyard.Http.{Time, Request}
use lanyard.Metadata.{Provider}
use lanyard.Store.{CallbackCorrelation, CorrelationStore}
use lanyard.Rp.{
  Rp, is_fapi, RpError, invalid_state, missing_code, token_exchange_failed,
  user_info_validation_failed, authorization_failed, invalid_grant_id, id_token_validation_failed,
  IdTokenProblem, absent,
}
use lanyard.Rp.Jose.{Jose, Claims, JarmClaims}
use lanyard.Rp.IdToken.{FlowIdentity}
use lanyard.Rp.IdToken.Verify.{KeySets, decrypt_if_needed, validate_id_token}
use lanyard.Rp.IdToken.Hashes.{validate_response_id_token}
use lanyard.Rp.Jarm.{parse_jarm_response, is_jarm_response, requires_jarm_response}
use lanyard.Rp.AuthMethod.{apply_supported}
use lanyard.Rp.Endpoints.{token_endpoint, user_info_endpoint}
pub use lanyard.Rp.CallbackParams.{CallbackParams}
pub use lanyard.Rp.Flow.{Token, CallbackResult, Network, Response, or_else, lift_problem}
unfoldable pub use lanyard.Rp.CallbackParams.{param, params_of, extract_params}
unfoldable pub use lanyard.Rp.Flow.{
  authorization_error, uses_openid, identity, expected_issuer, unidentified,
}

-- `providerForCallback`: the negotiated method is kept in the RP.
unfoldable pub negotiate : Rp → Provider → Rp × Except RpError Provider
negotiate r p = elim p.token_endpoint_auth_methods_supported [
  | [] ↦ (r, ok p)
  | m ∷ ms ↦
      let (r', applied) = apply_supported r (m ∷ ms) in
      elim applied [ ok u ↦ (r', ok p) | err e ↦ (r', err token_exchange_failed) ]
]

unfoldable pub provider_for_callback : Rp → Network → Text → Rp × Except RpError Provider
provider_for_callback r net issuer =
    if not r.provider_set || r.provider.issuer == []
    then elim (net.discover issuer) [
      | none ↦ (r, err token_exchange_failed)
      | some p ↦ negotiate r p
    ]
    else negotiate r r.provider

module _ (j : Jose) where
  -- `parseAuthorizationResponse`
  unfoldable pub parse_response : Rp → Network → CallbackParams → Except RpError Response
  parse_response r net params =
      if requires_jarm_response r && not (is_jarm_response params.response)
      then err invalid_state
      else if is_jarm_response params.response
      then elim (parse_jarm_response j r net.jarm_time net.key_sets params.response) [
        | err e ↦ err e
        | ok c ↦
            if not (c.error == [])
            then err (authorization_error c.error c.error_description)
            else ok (record { code = c.code; state = c.state; iss = c.iss })
      ]
      else if not (params.error == [])
      then err (authorization_error params.error params.error_description)
      else ok (record { code = params.code; state = params.state; iss = params.iss })

  -- The ID token of the response, where there is one: its issuer stands in for a missing `iss`.
  unfoldable pub response_issuer :
      Rp → Network → CallbackParams → Response → CallbackCorrelation → Except RpError Text
  response_issuer r net params resp saved =
      if params.id_token == []
      then ok resp.iss
      else lift_problem (do
        plain ←
            if eqb (count params.id_token b'.') 4
            then decrypt_if_needed j r params.id_token
            else ok params.id_token
        claims ←
            validate_response_id_token j r net.response_time net.age_time net.key_sets plain
              saved.nonce resp.code resp.state r.provider.jwks_uri
              r.provider.id_token_signing_alg_values_supported (identity r saved r.issuer)
        ok (if resp.iss == [] then claims.issuer else resp.iss))

  -- The checks of the response against the correlation; the issuer of the flow.
  unfoldable pub check_response :
      Rp → Network → CallbackParams → Response → CallbackCorrelation → Except RpError Text
  check_response r net params resp saved = do
    iss ← response_issuer r net params resp saved
    let expected = expected_issuer r saved
    fail_if (is_jarm_response params.response && not (iss == expected)) invalid_state
    fail_if (r.validate_response_issuer && iss == []) invalid_state
    fail_if (r.validate_response_issuer && (not (iss == []) && not (iss == expected))) invalid_state
    ok expected

  -- UserInfo, where the provider has an endpoint for it.
  unfoldable pub user_info :
      Rp
      → Network
      → Provider
      → CallbackCorrelation
      → FlowIdentity
      → Token
      → Claims
      → Except RpError (Option Text)
  user_info r net p saved id token claims =
      let endpoint = user_info_endpoint r p in
      let transport = or_else saved.user_info_token_transport r.user_info_token_transport in
      if endpoint == []
      then ok none
      else elim (net.fetch_user_info r endpoint token.access_token claims.subject transport id) [
        | ok info ↦ ok (some info)
        | err e ↦ err e
      ]

  unfoldable pub result_of : Network → FlowIdentity → Token → Claims → Option Text → CallbackResult
  result_of net id token claims info = record {
    subject = claims.subject;
    access_token = token.access_token;
    user_info = info;
    cnf = claims.cnf;
    grant_id = token.grant_id;
    token = token;
    issuer = id.issuer;
    verified_claims = net.parse_verified claims.verified_claims;
  }

  -- The part of the flow with the scope `openid`.
  unfoldable pub identify :
      Rp
      → Network
      → Provider
      → CallbackCorrelation
      → FlowIdentity
      → Token
      → Except RpError CallbackResult
  identify r net p saved id token = do
    fail_if (token.id_token == []) (id_token_validation_failed absent)
    claims ← lift_problem (
        validate_id_token j r net.token_time net.key_sets token.id_token saved.nonce p.jwks_uri
          p.id_token_signing_alg_values_supported id)
    info ← if is_fapi r.profile then ok none else user_info r net p saved id token claims
    ok (result_of net id token claims info)

  -- From the provider on: the token exchange, the ID token and UserInfo.
  unfoldable pub complete :
      Rp
      → Network
      → Provider
      → Text
      → CallbackCorrelation
      → FlowIdentity
      → Except RpError CallbackResult
  complete r net p code saved id = do
    fail_if (token_endpoint r p == []) token_exchange_failed
    token ← net.exchange r (token_endpoint r p) code saved.code_verifier saved.resources id
    fail_if (token.access_token == []) user_info_validation_failed
    if not (uses_openid r) then ok (unidentified id token) else identify r net p saved id token

  -- Everything after the state was consumed.
  unfoldable pub with_correlation :
      Rp
      → Network
      → CallbackParams
      → Response
      → CallbackCorrelation
      → Rp × Except RpError CallbackResult
  with_correlation r net params resp saved = elim (check_response r net params resp saved) [
    | err e ↦ (r, err e)
    | ok issuer ↦
        let (r', provider) = provider_for_callback r net issuer in
        elim provider [
          | err e ↦ (r', err e)
          | ok p ↦ (r', complete r' net p resp.code saved (identity r' saved issuer))
        ]
  ]

  -- `handleCallback`, over a correlation store with states `S` and the operation `consume`.
  module _ (store : CorrelationStore) where
    open store use {S, consume}

    unfoldable pub consumed :
        S
        → Rp
        → Network
        → Request
        → CallbackParams
        → Response
        → S × Rp × Except RpError CallbackResult
    consumed s r net req params resp =
        let (s', saved) = consume s net.store_time (some req) resp.state in
        elim saved [
          | err e ↦ (s', r, err invalid_state)
          | ok none ↦ (s', r, err invalid_state)
          | ok (some d) ↦
              let (r', result) = with_correlation r net params resp d in (s', r', result)
        ]

    unfoldable pub handle_callback :
        S → Rp → Network → Option Request → S × Rp × Except RpError CallbackResult
    handle_callback s r net none = (s, r, err invalid_state)
    handle_callback s r net (some req) =
        let params = extract_params req in
        elim (parse_response r net params) [
          | err e ↦ (s, r, err e)
          | ok resp ↦
              if resp.state == []
              then (s, r, err invalid_state)
              else if resp.code == []
              then (s, r, err missing_code)
              else consumed s r net req params resp
        ]
