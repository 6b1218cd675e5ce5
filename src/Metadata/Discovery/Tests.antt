-- ===== src/Metadata/Discovery/Tests.antt =====
-- Runs of metadata/discovery.go on small inputs.
use lanyard.Base.{
  ◌≡◌, refl, true, false, Option, none, some, [], ◌∷◌, ◌++◌, Text, codes, ◌==◌, all, has_prefix,
  if◌then◌else◌,
}
use lanyard.Base.Maps.{lookup}
use lanyard.Http.{minute}
use lanyard.Metadata.{Provider, no_provider, no_server}
use lanyard.Metadata.Validate.{
  validate_issuer_url, parse_https, validate_provider, validate_all, validate_https_url, is_secure,
  issuer_matches, endpoints,
}
use lanyard.Metadata.Validate.Endpoints.{safe}
use lanyard.Metadata.Discovery.{
  Urls, Client, CacheEntry, provider_kind, Response, discover, discover_provider, refresh_discovery,
  refreshed_entry, entry_of, fetch_metadata, cached, provider_options, oidc_well_known_url,
  trim_trailing_slash,
}
use lanyard.Metadata.Discovery.Steps.{new_client, fresh}
use lanyard.Metadata.Discovery.Sound.{discover_provider_sound}

-- Every text that starts with `https:` is a URL of that scheme.
abbrev urls : Urls
urls = record {
  parse = λ raw.
      if has_prefix raw (codes "https:")
      then some (record {
        scheme = codes "https";
        host = codes "op";
        hostname = codes "op";
        raw_query = [];
        fragment = [];
      })
      else none;
  escaped_path = λ u. [];
  with_path = λ u path. path;
  clean = λ path. path;
}

abbrev issuer : Text
issuer = codes "https:op"

abbrev document : Provider
document = record no_provider {
  issuer = issuer;
  authorization_endpoint = codes "https:op/auth";
  jwks_uri = codes "https:op/keys";
  response_types_supported = codes "code" ∷ [];
  subject_types_supported = codes "public" ∷ [];
  id_token_signing_alg_values_supported = codes "ES256" ∷ [];
}

abbrev old_document : Provider
old_document = record document { jwks_uri = codes "https:op/old" }

abbrev response : Response Provider
response = record { status = 200; etag = codes "2"; body = some document; expiry = none }

abbrev server : Text → Text → Option (Response Provider)
server url etag = some response

abbrev silent : Text → Text → Option (Response Provider)
silent url etag = none

discover_provider_sound_example :
    (issuer_matches issuer document.issuer false ≡ true)
    × (all (safe urls.parse) (endpoints document) ≡ true)
unfolding discover_provider discover provider_options cached lookup refresh_discovery
    refreshed_entry entry_of fetch_metadata oidc_well_known_url validate_issuer_url parse_https
    validate_provider validate_all validate_https_url is_secure issuer_matches trim_trailing_slash
    has_prefix ◌==◌
discover_provider_sound_example =
    discover_provider_sound urls (new_client false minute false) 0 0 issuer server document
      (fresh false minute false) refl

abbrev entry : CacheEntry
entry = record {
  kind = provider_kind;
  provider = old_document;
  authorizer = no_server;
  etag = codes "1";
  fresh_until = minute;
  fetched_at = 0;
}

abbrev stale : Client
stale = record (new_client false minute false) {
  cache = ((provider_options urls).prefix ++ issuer, entry) ∷ [];
}
