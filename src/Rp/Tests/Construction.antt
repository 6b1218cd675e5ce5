-- ===== src/Rp/Tests/Construction.antt =====
-- A run of the construction of a relying party, rp/rp.go, on small inputs.
use lanyard.Base.{
  ◌≡◌, refl, Bool, true, false, Option, none, some, List, [], ◌∷◌, Text, codes, ◌==◌, ok,
  has_prefix, contains, trim_space, trim_left, trim_right, to_lower, equal_fold, if◌then◌else◌,
}
use lanyard.Base.Maps.{lookup}
use lanyard.Http.{minute}
use lanyard.Metadata.{Provider, no_provider, AuthorizationServer}
use lanyard.Metadata.Validate.{
  validate_issuer_url, parse_https, validate_provider, validate_all, validate_https_url, is_secure,
  issuer_matches,
}
use lanyard.Metadata.Discovery.{
  Urls, Response, discover, discover_provider, refresh_discovery, refreshed_entry, entry_of,
  fetch_metadata, cached, provider_options, oidc_well_known_url, trim_trailing_slash,
}
use lanyard.Metadata.Discovery.Steps.{new_client}
use lanyard.Rp.{Rp, KeyProvider, dpop, fapi2_message_signing, signed_non_repudiation}
use lanyard.Rp.AuthMethod.{
  private_key_jwt, select_auth_method, resolve, normalize, normalize_from, preferred,
  method_supported, method_exact_match, validate_resolved, apply_supported,
}
use lanyard.Rp.AuthMethod.Credentials.{Usable}
use lanyard.Rp.Endpoints.{par_endpoint}
use lanyard.Rp.Flow.{uses_openid}
use lanyard.Rp.Jarm.{requires_jarm_response}
use lanyard.Rp.Options.{
  RpOption, with_client_id, with_redirect_uri, with_client_key_provider, with_sender_constrain,
  with_profile, apply_option, apply_options, normalize_sender_constrain,
}
use lanyard.Rp.Defaults.{
  new_rp, apply_profile_defaults, is_complete, effective_discovery_mode, is_request_method,
  violates_fapi,
}
use lanyard.Rp.Construct.{
  new, validate, resolve_provider, resolve_auth_method, check, discover_for_mode,
}
use lanyard.Rp.Construct.Fapi.{FapiReady}
use lanyard.Rp.Construct.Origin.{new-FapiReady}
use lanyard.Rp.Construct.Responses.{new_checks_issuer, new-requires_jarm_response}
use lanyard.Rp.Construct.Secure.{discovery}

-- Every text that starts with `https:` is a URL of that scheme.
abbrev urls : Urls
urls = record {
  parse = λ raw.
      if has_prefix raw (codes "https:")
      then some (record {
        scheme = codes "https";
        host = codes "op";
        hostname = codes "op";
        raw_query = [];
        fragment = [];
      })
      else none;
  escaped_path = λ u. [];
  with_path = λ u path. path;
  clean = λ path. path;
}

abbrev document : Provider
document = record no_provider {
  issuer = codes "https:op";
  authorization_endpoint = codes "https:op/auth";
  jwks_uri = codes "https:op/keys";
  pushed_authorization_request_endpoint = codes "https:op/par";
  response_types_supported = codes "code" ∷ [];
  subject_types_supported = codes "public" ∷ [];
  id_token_signing_alg_values_supported = codes "ES256" ∷ [];
  token_endpoint_auth_methods_supported = codes "private_key_jwt" ∷ [];
}

abbrev server : Text → Text → Option (Response Provider)
server url etag =
    some (record { status = 200; etag = codes "1"; body = some document; expiry = none })

abbrev no_servers : Text → Option AuthorizationServer
no_servers issuer = none

abbrev no_objects : Text → Bool
no_objects raw = false

abbrev found : Text → Option Provider
found = discovery urls no_objects (new_client false minute false) 0 0 server no_servers

abbrev key : KeyProvider
key = record {
  private_key = some (record { key = codes "k"; rsa_bits = none });
  has_certificate = false;
  signing_algorithm = codes "es256";
}

abbrev options : List RpOption
options =
    with_client_id (codes "me")
    ∷ with_redirect_uri (codes "https:app")
    ∷ with_client_key_provider (some key)
    ∷ with_sender_constrain (codes "DPoP")
    ∷ with_profile fapi2_message_signing
    ∷ []

abbrev ready : Rp
ready = record (new_rp (codes "https:op")) {
  client_id = codes "me";
  redirect_uri = codes "https:app";
  client_key = some key;
  sender_constrain = dpop;
  profile = fapi2_message_signing;
  profile_explicit = true;
  require_par = true;
  request_method = signed_non_repudiation;
  response_mode = codes "jwt";
  validate_response_issuer = true;
  provider = document;
  provider_set = true;
  resolved_auth_method = private_key_jwt;
}

built : new urls.parse no_objects found no_servers (codes "https:op") options ≡ ok ready
unfolding new new_rp apply_profile_defaults apply_options apply_option normalize_sender_constrain
    validate resolve_provider resolve_auth_method check discover_for_mode is_complete
    effective_discovery_mode is_request_method violates_fapi select_auth_method resolve normalize
    normalize_from preferred method_supported method_exact_match validate_resolved apply_supported
    par_endpoint uses_openid discover_provider discover provider_options cached lookup
    refresh_discovery refreshed_entry entry_of fetch_metadata oidc_well_known_url
    validate_issuer_url parse_https validate_provider validate_all validate_https_url is_secure
    issuer_matches trim_trailing_slash has_prefix contains trim_space trim_left trim_right to_lower
    equal_fold ◌==◌
built = refl

new-FapiReady_example : FapiReady ready × Usable ready private_key_jwt
new-FapiReady_example =
    new-FapiReady urls.parse no_objects found no_servers (codes "https:op") options ready built refl

new_checks_issuer_example : ready.validate_response_issuer ≡ true
new_checks_issuer_example =
    new_checks_issuer urls.parse no_objects found no_servers (codes "https:op") options ready built
      refl refl

new-requires_jarm_response_example : requires_jarm_response ready ≡ true
new-requires_jarm_response_example =
    new-requires_jarm_response urls.parse no_objects found no_servers (codes "https:op") options
      ready built refl
