-- ===== src/Rp/Tests.antt =====
-- A client, a provider and a token format for the runs of package rp on small inputs.
mod Tokens
mod Callbacks
mod Clients
mod Construction
mod Requests
use lanyard.Base.{
  ℕ, ◌+◌, ◌*◌, ◌≡◌, refl, Bool, true, false, Option, none, some, List, [], ◌∷◌, Text, codes, ◌==◌,
  any, inl, inr, ◌⊎◌, sym, ap, ◌∙◌, Bool-cases, if◌then◌else◌, arith,
}
use lanyard.Base.Int.{ℤ, pos}
use lanyard.Http.{Time, second, minute}
use lanyard.Metadata.{Provider, no_provider}
use lanyard.Rp.{
  Rp, Profile, oidc, SenderConstraint, unconstrained, KeyProvider, plain, discovery_auto,
}
use lanyard.Rp.Jose.{Jose, Header, Jwk, Claims, JarmClaims}
use lanyard.Rp.IdToken.{FlowIdentity}
use lanyard.Rp.IdToken.Verify.{KeySource, KeySets}

abbrev pub provider : Provider
provider = record no_provider {
  issuer = codes "op";
  authorization_endpoint = codes "op/auth";
  token_endpoint = codes "op/token";
  jwks_uri = codes "op/keys";
  response_types_supported = codes "code" ∷ [];
  subject_types_supported = codes "public" ∷ [];
  id_token_signing_alg_values_supported = codes "ES256" ∷ [];
  token_endpoint_auth_methods_supported = codes "client_secret_basic" ∷ [];
}

abbrev pub client : Rp
client = record {
  issuer = codes "op";
  client_id = codes "me";
  client_secret = codes "secret";
  scopes = codes "openid" ∷ [];
  scopes_explicit = false;
  auth_method = [];
  resources = [];
  claims_parameter = [];
  option_errors = [];
  provider = provider;
  provider_set = true;
  configured_provider = no_provider;
  configured_provider_set = false;
  client_key = none;
  resolved_auth_method = codes "client_secret_post";
  allow_method_fallback = true;
  sender_constrain = unconstrained;
  redirect_uri = codes "app/cb";
  user_info_token_transport = [];
  require_par = false;
  require_par_explicit = false;
  allow_unsecured_id_tokens = false;
  response_mode = [];
  response_mode_explicit = false;
  response_type = [];
  response_type_explicit = false;
  request_method = plain;
  request_method_explicit = false;
  request_method_raw = [];
  request_uri_handler = none;
  validate_response_issuer = true;
  validate_response_issuer_set = false;
  profile = oidc;
  profile_explicit = false;
  discovery_mode = discovery_auto;
  discovery_mode_explicit = false;
  clock_skew = minute;
  authorization_details = [];
}

pub parsed_header :
    (hd : Header) (c : Claims) (algs : List Text) (t : Header × Claims) (h : Header)
    (hs : List Header)
    → ◌≡◌ {A = Option (Header × Claims)}
        (if any (λ a. a == hd.algorithm) algs then some (hd, c) else none)
        (some t)
    → t.0 ∷ [] ≡ h ∷ hs
    → any (λ a. a == h.algorithm) algs ≡ true
parsed_header hd c algs t h hs parsed first =
    elim (Bool-cases (any (λ a. a == hd.algorithm) algs)) [
      | inr off ↦ let p = rw off at parsed in absurd (ground arith)
      | inl on ↦
          let p = rw on at parsed in
          let same : hd ≡ t.0 = ground arith in
          let same' : t.0 ≡ h = cc in rw (sym (same ∙ same')) on
    ]

-- The header and the claims that every text is taken for, of a token signed by the key "k".
abbrev pub jose_of : Header → Claims → Jose
jose_of hd c = record {
  Token = Header × Claims;
  parse_signed = λ raw algs. if any (λ a. a == hd.algorithm) algs then some (hd, c) else none;
  headers = λ t. t.0 ∷ [];
  id_claims = λ t key. if key == codes "k" then some t.1 else none;
  jarm_claims = λ t key. none;
  unsafe_claims = λ t. some t.1;
  decrypt = λ key raw. none;
  hash = λ alg text. text;
  parse_signed_alg = λ raw algs t h hs parsed first. parsed_header hd c algs t h hs parsed first;
}

abbrev pub header : Header
header = record { algorithm = codes "ES256"; key_id = codes "1" }

abbrev pub claims : Claims
claims = record {
  issuer = codes "op";
  subject = codes "alice";
  aud = codes "me" ∷ [];
  exp = some (pos 2000);
  iat = some (pos 900);
  nonce = codes "n";
  azp = [];
  c_hash = [];
  s_hash = [];
  cnf = [];
  verified_claims = [];
}

abbrev pub jose : Jose
jose = jose_of header claims

abbrev pub key : Jwk
key = record { key_id = codes "1"; use_ = codes "sig"; material = codes "k" }

abbrev pub keys : KeySource
keys = record { key = λ kid. if kid == codes "1" then some key else none; keys = some (key ∷ []) }

abbrev pub key_sets : KeySets
key_sets = record { by_uri = λ uri. some keys; by_issuer = λ issuer. none; uncached = λ uri. none }

-- 1000 seconds after the epoch.
abbrev pub now : Time
now = 62135597800 * second

abbrev pub flow : FlowIdentity
flow = record { issuer = codes "op"; client_id = codes "me"; client_secret = codes "secret" }
