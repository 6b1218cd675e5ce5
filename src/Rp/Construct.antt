-- ===== src/Rp/Construct.antt =====
-- rp/rp.go: the construction of a relying party.
pub mod Fapi
pub mod Origin
pub mod Responses
pub mod Secure
use lanyard.Base.{
  ℕ, Bool, true, false, not, ◌&&◌, ◌||◌, Option, none, some, List, [], ◌∷◌, ◌++◌, Text, codes, ◌==◌,
  equal_fold, is_empty, trim_space, to_lower, contains, leb, ltb, eqb, map, Except, ok, err, ◌>>=◌,
  ◌>>◌, fail_if, or_fail, if◌then◌else◌,
}
use lanyard.Http.{minute}
use lanyard.Metadata.{
  Provider, no_provider, AuthorizationServer, provider_of_server, MtlsAliases, no_aliases,
}
use lanyard.Metadata.Validate.{Url, parse_https, validate_all, endpoints}
use lanyard.Rp.{
  Rp, RpError, invalid_configuration, KeyProvider, Profile, oidc, oauth2, fapi1_adv, fapi2_security,
  fapi2_message_signing, plain_fapi, is_fapi, SenderConstraint, unconstrained, mtls, dpop,
  RequestMethod, plain, signed_non_repudiation, DiscoveryMode, discovery_auto, discovery_oidc,
  discovery_oauth2, discovery_disabled,
}
use lanyard.Rp.AuthMethod.{
  private_key_jwt, tls, self_signed_tls, apply_supported, has_key, has_certificate,
}
use lanyard.Rp.Endpoints.{par_endpoint}
use lanyard.Rp.Flow.{uses_openid}
use lanyard.Rp.Merge.{merge_provider, fill_missing}
use lanyard.Rp.Options.{RpOption, is_signed, apply_options}
use lanyard.Rp.Defaults.{
  new_rp, remove_scope, unless, profile_defaults, apply_profile_defaults, is_complete,
  effective_discovery_mode, oauth_only_provider, is_request_method, signing_algorithm, unfit_key,
  is_unconstrained, unprotected, violates_fapi, unsupported_constraint, is_message_signing,
  is_plain_fapi, is_fapi1_dpop, first_error, configured,
}

-- `resolveAuthMethod`
unfoldable pub resolve_auth_method : Rp → Except RpError Rp
resolve_auth_method r =
    let (s, done) = apply_supported r r.provider.token_endpoint_auth_methods_supported in
    done >> ok s

abbrev pub mistyped_method : Rp → Bool
mistyped_method r = r.request_method_explicit && not (is_request_method r.request_method_raw)

abbrev pub plain_responses : Rp → Bool
plain_responses r =
    is_message_signing r.profile
    && r.response_mode_explicit
    && not (contains (to_lower r.response_mode) (codes "jwt"))

abbrev pub skips_issuer : Rp → Bool
skips_issuer r =
    is_fapi r.profile
    && not (is_plain_fapi r.profile)
    && r.validate_response_issuer_set
    && not r.validate_response_issuer

abbrev pub no_par_endpoint : Rp → Bool
no_par_endpoint r = r.require_par && par_endpoint r.provider r.resolved_auth_method == []

-- `validateProviderReadyForAuthorizationURL` and the checks that follow it in New
unfoldable pub check : Rp → Except RpError (Unit {0})
check r = do
  fail_if (r.provider.authorization_endpoint == []) invalid_configuration
  fail_if (no_par_endpoint r) invalid_configuration
  fail_if (mistyped_method r) invalid_configuration
  fail_if (plain_responses r) invalid_configuration
  fail_if (skips_issuer r) invalid_configuration
  fail_if (is_fapi1_dpop r.profile r.sender_constrain) invalid_configuration
  fail_if (violates_fapi r) invalid_configuration
  fail_if (unsupported_constraint r.sender_constrain r) invalid_configuration

abbrev pub is_disabled : DiscoveryMode → Bool
is_disabled discovery_disabled = true
is_disabled _ = false

abbrev server_provider : Option AuthorizationServer → Option Provider
server_provider none = none
server_provider (some s) = some (provider_of_server s)

-- `parse` is url.Parse, `is_object` the test for a JSON object; `discover` and `discover_server` are
-- what the metadata client answers for an issuer.
module _ (parse : Text → Option Url) (is_object : Text → Bool) (discover : Text → Option Provider)
    (discover_server : Text → Option AuthorizationServer) where
  -- `RP.validate`
  unfoldable pub validate : Rp → Except RpError (Unit {0})
  validate r = do
    configured (parse_https parse r.issuer)
    fail_if (r.client_id == []) invalid_configuration
    configured (parse_https parse r.redirect_uri)
    fail_if (is_empty r.scopes) invalid_configuration

  -- `discoverProviderMetadataForMode`
  unfoldable pub discover_for_mode : Rp → DiscoveryMode → Option Provider
  unfolding oauth_only_provider provider_of_server
  discover_for_mode r discovery_oidc = discover r.issuer
  discover_for_mode r discovery_oauth2 = server_provider (discover_server r.issuer)
  discover_for_mode r _ =
      if uses_openid r then discover r.issuer else some (oauth_only_provider r.issuer)

  abbrev preloaded : Rp → Except RpError Rp
  preloaded r = do
    configured (validate_all parse (endpoints r.configured_provider))
    ok (record r { provider = r.configured_provider; provider_set = true })

  -- `resolveProvider`
  unfoldable pub resolve_provider : Rp → Except RpError Rp
  resolve_provider r =
      if r.configured_provider_set && is_complete r.configured_provider
      then preloaded r
      else if is_disabled (effective_discovery_mode r)
      then if r.configured_provider_set then preloaded r else err invalid_configuration
      else do
        found ← or_fail (discover_for_mode r (effective_discovery_mode r)) invalid_configuration
        ok (record r {
          provider =
              if r.configured_provider_set
              then merge_provider fill_missing r.configured_provider found
              else found;
          provider_set = true;
        })

  -- `New`
  unfoldable pub new : Text → List RpOption → Except RpError Rp
  unfolding new_rp apply_profile_defaults
  new issuer opts = do
    let r = apply_profile_defaults (apply_options parse is_object opts (new_rp issuer))
    first_error r.option_errors
    validate r
    provided ← resolve_provider r
    ready ← resolve_auth_method provided
    check ready
    ok ready
