-- ===== src/Rp/Grant.antt =====
-- rp/token_exchange.go (`executeTokenGrant`), rp/refresh_token.go and rp/refresh_rotation.go.
pub mod Outcome
pub mod Refresh
use lanyard.Base.{
  ℕ, Bool, true, false, not, ◌&&◌, ◌||◌, Option, none, some, [], Text, codes, ◌==◌, eqb, equal_fold,
  trim_space, Except, ok, err, ◌>>◌, fail_if, if◌then◌else◌, ◌>>=◌,
}
use lanyard.Rp.{Rp, SenderConstraint, unconstrained, mtls, dpop}
use lanyard.Rp.AuthMethod.{post, basic}
use lanyard.Rp.Callback.{Token}
use lanyard.Rp.Endpoints.{token_endpoint}

-- `tokenGrantResult`
pub record GrantResult : Type 0 where
  pub token : Token
  pub status : ℕ
  pub preview : Text

-- The errors of a token grant; a status comes with the code of a JSON error body, if it is one.
pub data GrantError : Type 0 where
  not_run sender_constraint_violated malformed_token : GrantError
  status_error : ℕ → Option Text → GrantError

abbrev pub is_dpop : SenderConstraint → Bool
is_dpop dpop = true
is_dpop _ = false

-- `http.StatusOK`
abbrev pub status_ok : ℕ
status_ok = 200

-- `shouldFallbackToBasic`
unfoldable pub should_fallback_to_basic : ℕ → Bool
should_fallback_to_basic status = eqb status 400 || eqb status 401

-- The checks of a response of status 200, the same for both attempts.
unfoldable pub accept : Rp → Token → Except GrantError Token
accept r token = do
  fail_if
      (is_dpop r.sender_constrain && not (equal_fold (trim_space token.token_type) (codes "DPoP")))
      sender_constraint_violated
  fail_if (trim_space token.access_token == [] || trim_space token.token_type == []) malformed_token
  ok token

-- `setAuthMethodState`
unfoldable pub set_auth_method_state : Rp → Text → Bool → Rp
set_auth_method_state r m fallback = record r {
  resolved_auth_method = m;
  allow_method_fallback = fallback;
}

-- A token endpoint and the network before it, of states `W`: `run` sends the grant with a client
-- authentication method, and `oauth_error` reads the member `error` of a JSON body.
pub record TokenServer : Type 1 where
  pub W : Type 0
  pub run : W → Text → W × Except GrantError GrantResult
  pub oauth_error : Text → Option Text

module _ (server : TokenServer) where
  open server use {W, run, oauth_error}

  -- `tokenEndpointStatusError`
  unfoldable pub token_endpoint_status_error : GrantResult → GrantError
  token_endpoint_status_error result = status_error result.status (oauth_error result.preview)

  -- The attempt with client_secret_basic after client_secret_post was refused.
  unfoldable pub retry_basic : W → Rp → W × Rp × Except GrantError Token
  retry_basic w r =
      let (w', answer) = run w basic in
      elim answer [
        | err e ↦ (w', r, err e)
        | ok result ↦
            if eqb result.status status_ok
            then elim (accept r result.token) [
              | err e ↦ (w', r, err e)
              | ok token ↦ (w', set_auth_method_state r basic false, ok token)
            ]
            else (w', r, err (token_endpoint_status_error result))
      ]

  unfoldable pub execute_token_grant : W → Rp → W × Rp × Except GrantError Token
  execute_token_grant w r =
      let method = r.resolved_auth_method in
      let (w', answer) = run w method in
      elim answer [
        | err e ↦ (w', r, err e)
        | ok result ↦
            if eqb result.status status_ok
            then elim (accept r result.token) [
              | err e ↦ (w', r, err e)
              | ok token ↦ (
                w',
                if r.allow_method_fallback then set_auth_method_state r method false else r,
                ok token,
              )
            ]
            else if r.allow_method_fallback
                && (method == post && should_fallback_to_basic result.status)
            then retry_basic w' r
            else (w', r, err (token_endpoint_status_error result))
      ]

-- The errors of a refresh, by their sentinels: refused before the request, failed, or rejected.
pub data RefreshError : Type 0 where
  no_refresh_token no_token_endpoint bad_resources : RefreshError
  grant_failed refresh_token_rejected : GrantError → RefreshError

-- How `refreshToken` wraps the error of the grant.
unfoldable pub refresh_error : GrantError → RefreshError
refresh_error (status_error status (some code)) =
    if code == codes "invalid_grant"
    then refresh_token_rejected (status_error status (some code))
    else grant_failed (status_error status (some code))
refresh_error e = grant_failed e

-- The token endpoint for refreshes: `send` sends a refresh token with an authentication method.
pub record RefreshServer : Type 1 where
  pub W : Type 0
  pub send : W → Text → Text → W × Except GrantError GrantResult
  pub oauth_error : Text → Option Text

module _ (server : RefreshServer) where
  open server use {W, send, oauth_error}

  -- The grant of one refresh token.
  abbrev pub grant_of : Text → TokenServer
  grant_of token = record { W = W; run = λ w m. send w token m; oauth_error = oauth_error }

  -- `RP.RefreshToken`; `overridden` is whether the resources of the context are in error.
  unfoldable pub refresh_token : W → Rp → Bool → Text → W × Rp × Except RefreshError Token
  refresh_token w r overridden token =
      if token == []
      then (w, r, err no_refresh_token)
      else if token_endpoint r r.provider == []
      then (w, r, err no_token_endpoint)
      else if overridden
      then (w, r, err bad_resources)
      else let (w', r', answer) = execute_token_grant (grant_of token) w r in
        elim answer [ ok t ↦ (w', r', ok t) | err e ↦ (w', r', err (refresh_error e)) ]

  -- RefreshTokenSource, with the state of its RP and of the server: `rp`, `w` and `current`.
  pub record Source : Type 0 where
    pub w : W
    pub rp : Rp
    pub current : Text

  unfoldable pub refresh : Source → Bool → Source × Except RefreshError Token
  refresh s overridden =
      let (w', r', answer) = refresh_token s.w s.rp overridden s.current in
      elim answer [
        | err e ↦ (record s { w = w'; rp = r' }, err e)
        | ok t ↦
            if not (t.refresh_token == [])
            then (record { w = w'; rp = r'; current = t.refresh_token }, ok t)
            else (record s { w = w'; rp = r' }, ok (record t { refresh_token = s.current }))
      ]

  unfoldable pub replace : Source → Text → Source
  replace s token = record s { current = token }

-- `NewRefreshTokenSource` refuses an empty token.
unfoldable pub new_source :
    (server : RefreshServer) → server.W → Rp → Text → Except RefreshError (Source server)
new_source server w r token = do
  fail_if (token == []) no_refresh_token
  ok (record { w = w; rp = r; current = token })
