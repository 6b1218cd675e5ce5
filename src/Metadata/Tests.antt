-- ===== src/Metadata/Tests.antt =====
-- Runs of metadata/validate.go on small inputs.
use lanyard.Base.{
  ◌≡◌, refl, ◌≢◌, ◌⊎◌, ◌↔◌, true, false, Option, none, some, [], ◌∷◌, Text, codes, ◌==◌, all,
  is_empty, ok, has_prefix, if◌then◌else◌,
}
use lanyard.Metadata.{Provider, no_provider}
use lanyard.Metadata.Validate.{
  Url, validate_https_url, validate_provider, validate_all, parse_https, is_secure, issuer_matches,
  endpoints, trim_slash,
}
use lanyard.Metadata.Validate.Endpoints.{
  Secure, safe, validate_https_url_iff, validate_provider_sound,
}

-- Every text that starts with `https:` is a URL of that scheme without a host.
abbrev parse : Text → Option Url
parse raw =
    if has_prefix raw (codes "https:")
    then some
        (record { scheme = codes "https"; host = []; hostname = []; raw_query = []; fragment = [] })
    else none

abbrev provider : Provider
provider = record no_provider {
  issuer = codes "https:op";
  authorization_endpoint = codes "https:op/auth";
  jwks_uri = codes "https:op/keys";
  response_types_supported = codes "code" ∷ [];
  subject_types_supported = codes "public" ∷ [];
  id_token_signing_alg_values_supported = codes "ES256" ∷ [];
}

validate_https_url_iff_example :
    (validate_https_url parse (codes "jwks_uri") (codes "https:op") true ≡ ok tt) ↔ (
      ((codes "https:op" ≡ []) × (true ≡ false))
      ⊎ ((codes "https:op" ≢ []) × Secure parse (codes "https:op")))
validate_https_url_iff_example =
    validate_https_url_iff parse (codes "jwks_uri") (codes "https:op") true

validate_provider_sound_example :
    (provider.issuer ≢ [])
    × (issuer_matches (codes "https:op/") provider.issuer true ≡ true)
    × (is_empty provider.response_types_supported ≡ false)
    × (is_empty provider.subject_types_supported ≡ false)
    × (is_empty provider.id_token_signing_alg_values_supported ≡ false)
    × Secure parse provider.authorization_endpoint
    × Secure parse provider.jwks_uri
    × (all (safe parse) (endpoints provider) ≡ true)
unfolding validate_provider validate_all validate_https_url parse_https is_secure issuer_matches
    trim_slash has_prefix ◌==◌
validate_provider_sound_example =
    validate_provider_sound parse (codes "https:op/") provider true refl
