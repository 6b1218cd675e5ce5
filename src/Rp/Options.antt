-- ===== src/Rp/Options.antt =====
-- rp/options.go: the options of a relying party, which New applies in their order.
use lanyard.Base.{
  Bool, true, false, not, ◌||◌, Option, none, some, List, [], ◌∷◌, ◌++◌, Text, codes, ◌==◌,
  equal_fold, is_empty, trim_space, to_lower, Except, ok, err, ◌>>=◌, ◌>>◌, fail_if, or_fail,
  if◌then◌else◌,
}
use lanyard.Base.Int.{ℤ, pos, negsuc}
use lanyard.Metadata.{Provider}
use lanyard.Metadata.Validate.{Url}
use lanyard.Rp.{
  Rp, RpError, invalid_configuration, KeyProvider, Profile, SenderConstraint, unconstrained, mtls,
  dpop, RequestMethod, plain, signed_non_repudiation, DiscoveryMode,
}
use lanyard.Rp.Merge.{merge_provider, override_present}

-- The options that set what is modelled of RP.
pub data RpOption : Type 0 where
  with_client_id with_client_secret with_redirect_uri with_auth_method : Text → RpOption
  with_user_info_token_transport with_sender_constrain with_claims : Text → RpOption
  with_response_mode with_response_type with_request_method : Text → RpOption
  with_scopes with_resources : List Text → RpOption
  with_clock_skew : ℤ → RpOption
  with_provider_metadata : Provider → RpOption
  with_client_key_provider : Option KeyProvider → RpOption
  with_require_par with_validate_authorization_response_issuer : Bool → RpOption
  with_allow_unsecured_id_tokens : Bool → RpOption
  with_authorization_details : Option Text → RpOption
  with_request_uri_mode : Option (Text → Option Text) → RpOption
  with_profile : Profile → RpOption
  with_discovery_mode : DiscoveryMode → RpOption

-- `normalizeRequestMethod`
unfoldable pub normalize_request_method : Text → RequestMethod
normalize_request_method raw =
    if equal_fold (trim_space raw) (codes "signed_non_repudiation")
    then signed_non_repudiation
    else plain

-- `normalizeSenderConstrain` of rp/dpop.go
unfoldable pub normalize_sender_constrain : Text → SenderConstraint
normalize_sender_constrain raw =
    let mode = to_lower (trim_space raw) in
    if mode == codes "dpop" then dpop else if mode == codes "mtls" then mtls else unconstrained

-- `normalizeUserInfoTokenTransport`
unfoldable pub normalize_transport : Text → Text
normalize_transport transport = if transport == codes "body" then codes "body" else codes "header"

abbrev pub is_signed : RequestMethod → Bool
is_signed signed_non_repudiation = true
is_signed plain = false

-- `parse` is url.Parse, and `is_object` says whether a text is a JSON object.
module _ (parse : Text → Option Url) (is_object : Text → Bool) where
  -- `normalizeResources` of rp/resource_indicators.go
  unfoldable pub normalize_resources : List Text → Except RpError (List Text)
  normalize_resources [] = ok []
  normalize_resources (resource ∷ rest) = do
    let trimmed = trim_space resource
    fail_if (trimmed == []) invalid_configuration
    u ← or_fail (parse trimmed) invalid_configuration
    fail_if (u.scheme == [] || u.host == []) invalid_configuration
    fail_if (not (u.fragment == [])) invalid_configuration
    later ← normalize_resources rest
    ok (trimmed ∷ later)

  -- `applyConfig` or `applyAuthCode` of an option
  unfoldable pub apply_option : RpOption → Rp → Rp
  unfolding normalize_request_method normalize_sender_constrain normalize_transport
  apply_option (with_client_id id) r = record r { client_id = id }
  apply_option (with_client_secret secret) r = record r { client_secret = secret }
  apply_option (with_redirect_uri uri) r = record r { redirect_uri = trim_space uri }
  apply_option (with_auth_method method) r = record r { auth_method = method }
  apply_option (with_user_info_token_transport transport) r = record r {
    user_info_token_transport = normalize_transport transport;
  }
  apply_option (with_sender_constrain mode) r = record r {
    sender_constrain = normalize_sender_constrain mode;
  }
  apply_option (with_claims raw) r =
      if trim_space raw == []
      then r
      else if not (is_object raw)
      then record r { option_errors = r.option_errors ++ invalid_configuration ∷ [] }
      else record r { claims_parameter = raw }
  apply_option (with_response_mode mode) r = record r {
    response_mode = trim_space mode;
    response_mode_explicit = true;
  }
  apply_option (with_response_type kind) r = record r {
    response_type = trim_space kind;
    response_type_explicit = true;
  }
  apply_option (with_request_method method) r = record r {
    request_method = normalize_request_method method;
    request_method_explicit = true;
    request_method_raw = method;
  }
  apply_option (with_scopes scopes) r =
      if is_empty scopes then r else record r { scopes = scopes; scopes_explicit = true }
  apply_option (with_resources resources) r = elim (normalize_resources resources) [
    | err e ↦ record r { option_errors = r.option_errors ++ e ∷ [] }
    | ok normalized ↦ record r { resources = normalized }
  ]
  apply_option (with_clock_skew (pos skew)) r = record r { clock_skew = skew }
  apply_option (with_clock_skew (negsuc n)) r = r
  apply_option (with_provider_metadata p) r = record r {
    provider = merge_provider override_present r.provider p;
    provider_set = true;
    configured_provider = merge_provider override_present r.configured_provider p;
    configured_provider_set = true;
  }
  apply_option (with_client_key_provider none) r = r
  apply_option (with_client_key_provider (some key)) r = record r { client_key = some key }
  apply_option (with_require_par needed) r = record r {
    require_par = needed;
    require_par_explicit = true;
  }
  apply_option (with_validate_authorization_response_issuer validate) r = record r {
    validate_response_issuer = validate;
    validate_response_issuer_set = true;
  }
  apply_option (with_allow_unsecured_id_tokens allow) r = record r {
    allow_unsecured_id_tokens = allow;
  }
  apply_option (with_authorization_details none) r = r
  apply_option (with_authorization_details (some details)) r = record r {
    authorization_details = details;
  }
  apply_option (with_request_uri_mode handler) r = record r { request_uri_handler = handler }
  apply_option (with_profile profile) r = record r { profile = profile; profile_explicit = true }
  apply_option (with_discovery_mode mode) r = record r {
    discovery_mode = mode;
    discovery_mode_explicit = true;
  }

  unfoldable pub apply_options : List RpOption → Rp → Rp
  apply_options [] r = r
  apply_options (o ∷ os) r = apply_options os (apply_option o r)
