-- ===== src/Metadata/Validate.antt =====
-- metadata/validate.go and validateurl/https.go: the checks of a provider's metadata.
pub mod Endpoints
use lanyard.Base.{
  Bool, true, false, not, ◌&&◌, ◌||◌, Option, none, some, List, [], ◌∷◌, Text, codes, ◌==◌,
  equal_fold, eqb, is_empty, Except, ok, err, ◌>>◌, fail_if, if◌then◌else◌, ◌>>=◌,
}
use mathlib.Core.List.{reverse}
use lanyard.Metadata.{Provider, AuthorizationServer}

-- A *url.URL: its parts as the code reads them.
pub record Url : Type 0 where
  pub scheme : Text
  pub host : Text
  pub hostname : Text
  pub raw_query : Text
  pub fragment : Text

-- The errors of package validateurl.
pub data UrlProblem : Type 0 where
  invalid_format invalid_https query_or_fragment : UrlProblem

-- A ValidationError by its field and what it expected there.
pub data Expected : Type 0 where
  non_empty this_issuer : Expected
  valid_url : UrlProblem → Expected

pub record Violation : Type 0 where
  pub field : Text
  pub expected : Expected

-- strings.TrimSuffix(s, "/")
abbrev slash_first : Text → Text
slash_first [] = []
slash_first (c ∷ s) = if eqb c b'/' then s else c ∷ s

unfoldable pub trim_slash : Text → Text
trim_slash s = reverse (slash_first (reverse s))

-- `issuerMatches`
unfoldable pub issuer_matches : Text → Text → Bool → Bool
issuer_matches expected actual tolerate =
    if expected == actual then true else tolerate && trim_slash expected == trim_slash actual

-- `isLoopbackHost`
unfoldable pub is_loopback : Url → Bool
is_loopback u =
    u.hostname == codes "127.0.0.1"
    || u.hostname == codes "::1"
    || equal_fold u.hostname (codes "localhost")

-- `validateRequired` and `validateRequiredSlice`
abbrev pub required : Text → Text → Except Violation (Unit {0})
required field v = fail_if (v == []) (record { field = field; expected = non_empty })

abbrev pub required_slice : Text → List Text → Except Violation (Unit {0})
required_slice field v = fail_if (is_empty v) (record { field = field; expected = non_empty })

-- The endpoints of `validateEndpointsDocument`. Go visits them in any order, which decides which of
-- several violations is reported.
abbrev pub endpoints : Provider → List (Text × Text)
endpoints p =
    (codes "authorization_endpoint", p.authorization_endpoint)
    ∷ (codes "jwks_uri", p.jwks_uri)
    ∷ (codes "token_endpoint", p.token_endpoint)
    ∷ (codes "userinfo_endpoint", p.userinfo_endpoint)
    ∷ (codes "pushed_authorization_request_endpoint", p.pushed_authorization_request_endpoint)
    ∷ (codes "introspection_endpoint", p.introspection_endpoint)
    ∷ (codes "registration_endpoint", p.registration_endpoint)
    ∷ (codes "grant_management_endpoint", p.grant_management_endpoint)
    ∷ (codes "mtls_endpoint_aliases.token_endpoint", p.mtls_endpoint_aliases.token_endpoint)
    ∷ (codes "mtls_endpoint_aliases.userinfo_endpoint", p.mtls_endpoint_aliases.userinfo_endpoint)
    ∷ (
      codes "mtls_endpoint_aliases.pushed_authorization_request_endpoint",
      p.mtls_endpoint_aliases.pushed_authorization_request_endpoint,
    )
    ∷ (
      codes "mtls_endpoint_aliases.introspection_endpoint",
      p.mtls_endpoint_aliases.introspection_endpoint,
    )
    ∷ []

-- `parse` is url.Parse of net/url.
module _ (parse : Text → Option Url) where
  -- `validateurl.ParseHTTPSAbsoluteNoQueryFragment`; IsAbs says that there is a scheme.
  unfoldable pub parse_https : Text → Except UrlProblem Url
  parse_https raw = elim (parse raw) [
    | none ↦ err invalid_format
    | some u ↦
        if u.scheme == [] || not (u.scheme == codes "https") || u.host == []
        then err invalid_https
        else if not (u.raw_query == []) || not (u.fragment == [])
        then err query_or_fragment
        else ok u
  ]

  -- `secure` of `validateHTTPSURL`
  unfoldable pub is_secure : Text → Bool
  is_secure raw = elim (parse raw) [
    | none ↦ false
    | some u ↦ u.scheme == codes "https" || u.scheme == codes "http" && is_loopback u
  ]

  unfoldable pub validate_https_url : Text → Text → Bool → Except Violation (Unit {0})
  validate_https_url field raw needed =
      if raw == []
      then fail_if needed (record { field = field; expected = non_empty })
      else elim (parse_https raw) [
        | ok u ↦ ok tt
        | err e ↦ fail_if (not (is_secure raw)) (record { field = field; expected = valid_url e })
      ]

  unfoldable pub validate_all : List (Text × Text) → Except Violation (Unit {0})
  validate_all [] = ok tt
  validate_all ((field, endpoint) ∷ rest) = do
    validate_https_url field endpoint false
    validate_all rest

  -- `validateProviderDocument`
  unfoldable pub validate_provider : Text → Provider → Bool → Except Violation (Unit {0})
  validate_provider expected p tolerate = do
    required (codes "issuer") p.issuer
    fail_if (not (issuer_matches expected p.issuer tolerate))
        (record { field = codes "issuer"; expected = this_issuer })
    required (codes "authorization_endpoint") p.authorization_endpoint
    required (codes "jwks_uri") p.jwks_uri
    required_slice (codes "response_types_supported") p.response_types_supported
    required_slice (codes "subject_types_supported") p.subject_types_supported
    required_slice (codes "id_token_signing_alg_values_supported")
        p.id_token_signing_alg_values_supported
    validate_https_url (codes "authorization_endpoint") p.authorization_endpoint true
    validate_https_url (codes "jwks_uri") p.jwks_uri true
    validate_https_url (codes "token_endpoint") p.token_endpoint false
    validate_https_url (codes "userinfo_endpoint") p.userinfo_endpoint false
    validate_all (endpoints p)

  -- `validateIssuerURL`
  unfoldable pub validate_issuer_url : Text → Except Violation Url
  validate_issuer_url issuer = elim (parse_https issuer) [
    | ok u ↦ ok u
    | err e ↦ err (record { field = codes "issuer"; expected = valid_url e })
  ]

  -- `validateAuthorizationServer`
  unfoldable pub validate_server : Text → AuthorizationServer → Bool → Except Violation (Unit {0})
  validate_server expected s tolerate = do
    required (codes "issuer") s.issuer
    fail_if (not (issuer_matches expected s.issuer tolerate))
        (record { field = codes "issuer"; expected = this_issuer })
    required_slice (codes "response_types_supported") s.response_types_supported
    validate_https_url (codes "authorization_endpoint") s.authorization_endpoint false
    validate_https_url (codes "jwks_uri") s.jwks_uri false
    validate_https_url (codes "token_endpoint") s.token_endpoint false
