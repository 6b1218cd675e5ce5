-- ===== src/Rp/Defaults.antt =====
-- rp/rp.go: the defaults of a relying party and its profiles, and what a profile requires.
use lanyard.Base.{
  ℕ, ◌*◌, ◌-◌, Bool, true, false, not, ◌&&◌, ◌||◌, Option, none, some, List, [], ◌∷◌, ◌++◌, Text,
  codes, ◌==◌, equal_fold, is_empty, trim_space, leb, ltb, eqb, map, Except, ok, err, if◌then◌else◌,
}
use lanyard.Http.{minute}
use lanyard.Metadata.{Provider, no_provider, no_aliases}
use lanyard.Rp.{
  Rp, RpError, invalid_configuration, KeyProvider, Profile, oidc, oauth2, fapi1_adv, fapi2_security,
  fapi2_message_signing, plain_fapi, is_fapi, SenderConstraint, unconstrained, mtls, dpop,
  RequestMethod, plain, signed_non_repudiation, DiscoveryMode, discovery_auto, discovery_oidc,
  discovery_oauth2,
}
use lanyard.Rp.AuthMethod.{private_key_jwt, tls, self_signed_tls, has_key, has_certificate}
use lanyard.Rp.Flow.{uses_openid}
use lanyard.Rp.Options.{is_signed}

-- `newRP`
unfoldable pub new_rp : Text → Rp
new_rp issuer = record {
  issuer = trim_space issuer;
  client_id = [];
  client_secret = [];
  scopes = codes "openid" ∷ [];
  scopes_explicit = false;
  auth_method = [];
  resources = [];
  claims_parameter = [];
  option_errors = [];
  provider = no_provider;
  provider_set = false;
  configured_provider = no_provider;
  configured_provider_set = false;
  client_key = none;
  resolved_auth_method = [];
  allow_method_fallback = false;
  sender_constrain = unconstrained;
  redirect_uri = [];
  user_info_token_transport = codes "header";
  require_par = false;
  require_par_explicit = false;
  allow_unsecured_id_tokens = false;
  response_mode = [];
  response_mode_explicit = false;
  response_type = [];
  response_type_explicit = false;
  request_method = plain;
  request_method_explicit = false;
  request_method_raw = [];
  request_uri_handler = none;
  validate_response_issuer = false;
  validate_response_issuer_set = false;
  profile = oidc;
  profile_explicit = false;
  discovery_mode = discovery_auto;
  discovery_mode_explicit = false;
  clock_skew = 5 * minute;
  authorization_details = [];
}

-- `removeScope`
unfoldable pub remove_scope : List Text → Text → List Text
remove_scope [] target = []
remove_scope (s ∷ scopes) target =
    let rest = remove_scope scopes target in
    if equal_fold (trim_space s) target then rest else s ∷ rest

-- A default is taken where the field has not been set.
abbrev pub unless {ℓ} : {A : Type ℓ} → Bool → A → A → A
unless true given default = given
unless false given default = default

-- The `switch` of `applyProfileDefaults`
abbrev pub profile_defaults : Profile → Rp → Rp
profile_defaults oauth2 r = record r {
  scopes = unless r.scopes_explicit r.scopes (remove_scope r.scopes (codes "openid"));
}
profile_defaults fapi1_adv r = record r {
  scopes = unless r.scopes_explicit r.scopes (codes "openid" ∷ []);
  request_method = unless r.request_method_explicit r.request_method signed_non_repudiation;
  response_type = unless r.response_type_explicit r.response_type (codes "code id_token");
}
profile_defaults fapi2_security r = record r {
  scopes = unless r.scopes_explicit r.scopes (codes "openid" ∷ []);
  request_method = unless r.request_method_explicit r.request_method signed_non_repudiation;
  require_par = unless r.require_par_explicit r.require_par true;
}
profile_defaults fapi2_message_signing r = record r {
  scopes = unless r.scopes_explicit r.scopes (codes "openid" ∷ []);
  request_method = unless r.request_method_explicit r.request_method signed_non_repudiation;
  require_par = unless r.require_par_explicit r.require_par true;
  response_mode = unless r.response_mode_explicit r.response_mode (codes "jwt");
}
profile_defaults oidc r = r
profile_defaults plain_fapi r = r

abbrev pub with_defaults : Rp → Rp
with_defaults r = record (profile_defaults r.profile r) {
  validate_response_issuer =
      if is_fapi r.profile && not r.validate_response_issuer_set
      then true
      else r.validate_response_issuer;
}

-- `applyProfileDefaults`
unfoldable pub apply_profile_defaults : Rp → Rp
unfolding remove_scope
apply_profile_defaults r = if not r.profile_explicit then r else with_defaults r

-- `providerIsComplete`
unfoldable pub is_complete : Provider → Bool
is_complete p =
    not (trim_space p.authorization_endpoint == [])
    && not (trim_space p.token_endpoint == [])
    && not (trim_space p.jwks_uri == [])

-- `effectiveDiscoveryMode`
unfoldable pub effective_discovery_mode : Rp → DiscoveryMode
effective_discovery_mode r =
    if r.discovery_mode_explicit then r.discovery_mode else elim r.profile [
      | oauth2 ↦ discovery_oauth2
      | _ ↦ if uses_openid r then discovery_oidc else discovery_auto
    ]

-- strings.TrimRight(s, "/")
abbrev trim_slashes : Text → Text
trim_slashes [] = []
trim_slashes (c ∷ s) =
    let rest = trim_slashes s in if is_empty rest && eqb c b'/' then [] else c ∷ rest

-- `oauthOnlyProviderMetadata`
unfoldable pub oauth_only_provider : Text → Provider
oauth_only_provider issuer =
    let base = trim_slashes (trim_space issuer) in
    record no_provider {
      issuer = issuer;
      authorization_endpoint = base ++ codes "/authorize";
      token_endpoint = base ++ codes "/token";
      response_types_supported = codes "code" ∷ [];
      mtls_endpoint_aliases = record no_aliases {
        token_endpoint = base ++ codes "/mtls/token";
        userinfo_endpoint = base ++ codes "/mtls/userinfo";
      };
      pushed_authorization_request_endpoint = base ++ codes "/par";
    }

-- `validateRequestMethodExplicit`
unfoldable pub is_request_method : Text → Bool
is_request_method raw =
    let normalized = trim_space raw in
    normalized == []
    || equal_fold normalized (codes "signed_non_repudiation")
    || equal_fold normalized (codes "plain")

-- strings.ToUpper of one byte below 128
abbrev upper : ℕ → ℕ
upper c = if leb 97 c && leb c 122 then c - 32 else c

abbrev pub signing_algorithm : KeyProvider → Text
signing_algorithm k = map upper (trim_space k.signing_algorithm)

-- The bits of the private key, where it is an RSA key.
abbrev pub key_bits : KeyProvider → Option ℕ
key_bits k = elim k.private_key [ none ↦ none | some p ↦ p.rsa_bits ]

abbrev is_short : Option ℕ → Bool
is_short none = false
is_short (some bits) = ltb bits 2048

abbrev pub unfit_key : Option KeyProvider → Bool
unfit_key none = false
unfit_key (some k) =
    not (signing_algorithm k == codes "PS256") && not (signing_algorithm k == codes "ES256")
    || is_short (key_bits k)

abbrev pub is_unconstrained : SenderConstraint → Bool
is_unconstrained unconstrained = true
is_unconstrained _ = false

abbrev pub unprotected : Profile → Bool → RequestMethod → Bool
unprotected fapi2_security par method = not par
unprotected fapi2_message_signing par method = not par
unprotected _ par method = not par && not (is_signed method)

-- `validateFAPIProfileRequirements`: whether a violation is found
unfoldable pub violates_fapi : Rp → Bool
violates_fapi r =
    let m = r.resolved_auth_method in
    is_fapi r.profile
    && (not (m == private_key_jwt || m == tls || m == self_signed_tls)
        || unprotected r.profile r.require_par r.request_method
        || is_unconstrained r.sender_constrain
        || unfit_key r.client_key)

-- `validateExplicitDPoP`: whether the credential of the sender constraint is missing
abbrev pub unsupported_constraint : SenderConstraint → Rp → Bool
unsupported_constraint dpop r = not (has_key r)
unsupported_constraint mtls r = not (has_certificate r)
unsupported_constraint unconstrained r = false

abbrev pub is_message_signing : Profile → Bool
is_message_signing fapi2_message_signing = true
is_message_signing _ = false

abbrev pub is_plain_fapi : Profile → Bool
is_plain_fapi plain_fapi = true
is_plain_fapi _ = false

abbrev pub is_fapi1_dpop : Profile → SenderConstraint → Bool
is_fapi1_dpop fapi1_adv dpop = true
is_fapi1_dpop _ _ = false

abbrev pub first_error : List RpError → Except RpError (Unit {0})
first_error [] = ok tt
first_error (e ∷ es) = err e

abbrev pub configured {ℓ κ} : {E : Type ℓ} {A : Type κ} → Except E A → Except RpError (Unit {0})
configured (ok a) = ok tt
configured (err e) = err invalid_configuration
