-- ===== src/Rp/AuthMethod.antt =====
-- rp/auth_method.go and rp/client_config.go: the client authentication method at the token endpoint.
pub mod Credentials
use lanyard.Base.{
  Bool, true, false, not, ◌&&◌, ◌||◌, Option, none, some, List, [], ◌∷◌, Text, codes, ◌==◌, any,
  is_empty, trim_space, to_lower, Except, ok, err, ◌>>=◌, ◌>>◌, fail_if, if◌then◌else◌,
}
use lanyard.Rp.{Rp, KeyProvider, RpError, invalid_configuration, auth_method_not_supported}

abbrev pub none_method : Text
none_method = codes "none"

abbrev pub basic : Text
basic = codes "client_secret_basic"

abbrev pub post : Text
post = codes "client_secret_post"

abbrev pub client_secret_jwt : Text
client_secret_jwt = codes "client_secret_jwt"

abbrev pub private_key_jwt : Text
private_key_jwt = codes "private_key_jwt"

abbrev pub tls : Text
tls = codes "tls_client_auth"

abbrev pub self_signed_tls : Text
self_signed_tls = codes "self_signed_tls_client_auth"

-- The loop of `normalizeSupportedAuthMethods`, with the methods seen so far.
unfoldable pub normalize_from : List Text → List Text → List Text
normalize_from seen [] = []
normalize_from seen (m ∷ ms) =
    let t = trim_space (to_lower m) in
    let drop = normalize_from seen ms in
    let keep = t ∷ normalize_from (t ∷ seen) ms in
    if t == [] || any (λ s. s == t) seen then drop else keep

unfoldable pub normalize : List Text → List Text
unfolding normalize_from
normalize methods = normalize_from [] methods

unfoldable pub method_exact_match : Text → List Text → Bool
method_exact_match method supported =
    let want = to_lower (trim_space method) in any (λ m. m == want) supported

unfoldable pub method_supported : Text → List Text → Bool
method_supported method supported =
    let want = to_lower (trim_space method) in
    if want == []
    then false
    else if any (λ m. m == want) supported
    then true
    else if (want == tls || want == self_signed_tls)
        && any (λ m. m == tls || m == self_signed_tls) supported
    then true
    else want == none_method

abbrev pub has_key : Rp → Bool
has_key r = elim r.client_key [ none ↦ false | some k ↦ true ]

abbrev pub has_certificate : Rp → Bool
has_certificate r = elim r.client_key [ none ↦ false | some k ↦ k.has_certificate ]

abbrev pub has_secret : Rp → Bool
has_secret r = not (trim_space r.client_secret == [])

-- The method of `clientConfig.validateResolvedAuthMethod`.
unfoldable pub validate_resolved : Rp → Text → Except RpError (Unit {0})
validate_resolved r method =
    if method == basic || method == post
    then fail_if (not (has_secret r)) invalid_configuration
    else if method == private_key_jwt
    then fail_if (not (has_key r)) invalid_configuration
    else if method == tls || method == self_signed_tls
    then fail_if (not (has_certificate r)) invalid_configuration
    else if method == none_method
    then ok tt
    else if method == client_secret_jwt
    then fail_if (not (has_secret r)) invalid_configuration
    else err invalid_configuration

-- The credential-aware `switch`; `none` is its default case.
unfoldable pub preferred : Rp → List Text → Option Text
preferred r supported =
    if has_key r && method_supported private_key_jwt supported
    then some private_key_jwt
    else if has_key r && method_exact_match tls supported
    then some tls
    else if has_key r && method_exact_match self_signed_tls supported
    then some self_signed_tls
    else if has_key r && method_supported tls supported
    then some tls
    else if has_secret r && method_supported client_secret_jwt supported
    then some client_secret_jwt
    else if has_secret r && method_supported post supported
    then some post
    else if has_secret r && method_supported basic supported
    then some basic
    else if has_key r && method_supported post supported
    then some post
    else if method_supported none_method supported
    then some none_method
    else none

-- The method before its credentials are checked, and whether the other secret method may be tried.
unfoldable pub resolve : Rp → List Text → Except RpError (Text × Bool)
resolve r supported =
    if not (is_empty supported)
    then if not (r.auth_method == [])
      then if method_supported r.auth_method supported
        then ok (r.auth_method, false)
        else err auth_method_not_supported
      else elim (preferred r supported) [
        | none ↦ err auth_method_not_supported
        | some m ↦ ok (m, false)
      ]
    else if not (r.auth_method == [])
    then ok (r.auth_method, false)
    else ok (post, true)

-- `selectAuthMethodFromSupported`
unfoldable pub select_auth_method : Rp → List Text → Except RpError (Text × Bool)
select_auth_method r supported = do
  choice ← resolve r (normalize supported)
  validate_resolved r choice.0
  ok choice

-- `applySupportedAuthMethods`: the state changes only where a method is selected.
unfoldable pub apply_supported : Rp → List Text → Rp × Except RpError (Unit {0})
apply_supported r supported = elim (select_auth_method r supported) [
  | err e ↦ (r, err e)
  | ok (m, fallback) ↦
      (record r { resolved_auth_method = m; allow_method_fallback = fallback }, ok tt)
]
