-- ===== src/Rp/AuthRequest.antt =====
-- rp/authrequest.go and rp/par.go: building an authorization request and keeping what its callback needs.
pub mod Parameters
pub mod Kept
use lanyard.Base.{
  ℕ, ◌+◌, ◌*◌, Bool, true, false, not, ◌&&◌, ◌||◌, Option, none, some, List, [], ◌∷◌, ◌++◌, Text,
  codes, ◌==◌, is_empty, trim_space, Except, ok, err, ◌>>=◌, ◌>>◌, fail_if, or_fail, if◌then◌else◌,
}
use lanyard.Base.Base64.{encode}
use lanyard.Base.Maps.{erase}
use lanyard.Http.{Time, second}
use lanyard.Store.{CallbackCorrelation}
use lanyard.Rp.{Rp, RpError, invalid_configuration}
use lanyard.Rp.AuthMethod.{tls, apply_supported}
use lanyard.Rp.Endpoints.{par_endpoint}
use lanyard.Rp.Pkce.{PkceError, generate_code_verifier, code_challenge_s256}
use lanyard.Rp.Options.{is_signed}
use lanyard.Rp.UrlOptions.{UrlConfig, UrlOption, url_config, apply_url_options}
use lanyard.Metadata.Validate.{Url}
use lanyard.Base.Int.{ℤ, pos, pos_part, neg_part, sub_ℕ, int64, ◌+ℤ◌}
use lanyard.Rp.RequestObject.{
  Values, set, set_if, add_each, add_all, GrantManagementRequest, validate_grant,
  validate_supported, apply_grant, join, authorization_response_type, Asked,
}

-- `parResponse`
pub record ParResponse : Type 0 where
  pub request_uri : Text
  pub expires_in : ℤ

pub data UrlError : Type 0 where
  refused : RpError → UrlError
  pkce : PkceError → UrlError
  not_random not_signed not_pushed not_stored not_saved bad_endpoint : UrlError

-- What each of the reads of 32 random bytes gives, `none` where it fails.
pub record Randomness : Type 0 where
  pub for_state : Option (List ℕ)
  pub for_nonce : Option (List ℕ)
  pub for_verifier : Option (List ℕ)

-- `randomToken`
unfoldable pub random_token : Option (List ℕ) → Except UrlError Text
random_token none = err not_random
random_token (some buf) = ok (encode buf)

abbrev pub lift_pkce {ℓ} : {A : Type ℓ} → Except PkceError A → Except UrlError A
lift_pkce (ok a) = ok a
lift_pkce (err e) = err (pkce e)

abbrev pub lift_refusal {ℓ} : {A : Type ℓ} → Except RpError A → Except UrlError A
lift_refusal (ok a) = ok a
lift_refusal (err e) = err (refused e)

-- `shouldUsePAR`
unfoldable pub should_use_par : Rp → Bool
should_use_par r =
    if r.require_par
    then true
    else not (par_endpoint r.provider r.resolved_auth_method == [])
      && (elim r.provider.require_pushed_authorization_requests [ none ↦ false | some b ↦ b ])

-- `buildAuthorizationParameters`, whose first parameters are never absent
abbrev pub early_parameters : Rp → Asked → Values
early_parameters r a =
    let p0 = set (codes "response_type") (authorization_response_type r) [] in
    let p1 = set (codes "client_id") r.client_id p0 in
    let p2 = set (codes "redirect_uri") r.redirect_uri p1 in
    let p3 = set (codes "scope") (join r.scopes) p2 in
    let p4 = set (codes "state") a.state p3 in
    let p5 = set (codes "nonce") a.nonce p4 in
    let p6 = set (codes "code_challenge") a.challenge p5 in
    set (codes "code_challenge_method") (codes "S256") p6

unfoldable pub authorization_parameters : Rp → Asked → Values
unfolding authorization_response_type
authorization_parameters r a =
    let p7 = early_parameters r a in
    let p8 =
      set_if (not (trim_space r.response_mode == [])) (codes "response_mode") r.response_mode p7 in
    let p9 =
      set_if (not (trim_space a.authorization_details == [])) (codes "authorization_details")
        a.authorization_details p8 in
    let p10 = apply_grant a.grant (add_each (codes "resource") a.resources p9) in
    let p11 = set_if (not (trim_space a.claims == [])) (codes "claims") a.claims p10 in
    add_all a.parameters p11

-- time.Duration(s) * time.Second: the nanoseconds, an int64 that wraps.
abbrev pub lifetime : ℤ → ℤ
lifetime s = int64 (sub_ℕ (pos_part s * second) (neg_part s * second))

-- `Add` of a duration that may be negative
abbrev pub add_duration : Time → ℤ → Time
add_duration t d = pos_part (pos t +ℤ d)

-- The correlation that `saveCorrelation` saves.
unfoldable pub correlation_of :
    Rp → Time → Time → Text → Text → List Text → Option ParResponse → CallbackCorrelation
correlation_of r now later nonce verifier resources par = record {
  nonce = nonce;
  code_verifier = verifier;
  created_at = now;
  expiry = elim par [ none ↦ 0 | some p ↦ add_duration later (lifetime p.expires_in) ];
  issuer = r.issuer;
  client_id = r.client_id;
  client_secret = r.client_secret;
  request_uri = elim par [ none ↦ [] | some p ↦ p.request_uri ];
  used_par = elim par [ none ↦ false | some p ↦ true ];
  resources = resources;
  user_info_token_transport = r.user_info_token_transport;
}

-- The checks before anything is sent.
unfoldable pub check_request : Rp → UrlConfig → Except UrlError (Unit {0})
check_request r cfg = do
  fail_if (r.provider.authorization_endpoint == []) (refused invalid_configuration)
  elim cfg.error [ none ↦ ok tt | some e ↦ err (refused e) ]
  lift_refusal
      (validate_supported cfg.grant_management r.provider.grant_management_actions_supported)
  fail_if
      ((elim r.provider.grant_management_action_required [ none ↦ false | some b ↦ b ])
        && (elim cfg.grant_management [ none ↦ true | some g ↦ g.action == [] ]))
      (refused invalid_configuration)

-- What a request keeps for its callback, and where it sends the browser.
pub record Prepared : Type 0 where
  pub state : Text
  pub correlation : CallbackCorrelation
  pub redirect : Values

-- `sign` is `buildSignedRequestObject`, `push` what `pushAuthorizationRequestWithAuthMethod` returns
-- for its parameters, and `sum256` crypto/sha256.
module _ (sum256 : Text → List ℕ) (sign : Rp → Asked → Option Text)
    (push : Rp → Values → Except UrlError ParResponse) where
  -- The redirect of a request that is not pushed: as it is, with the request object, or with the
  -- address where `requestURIHandler` stored that.
  unfoldable pub redirect_parameters : Rp → Asked → Except UrlError Values
  redirect_parameters r a =
      if not (is_signed r.request_method) then ok (authorization_parameters r a) else do
        signed ← or_fail (sign r a) not_signed
        elim r.request_uri_handler [
          | none ↦ ok (set (codes "request") signed (authorization_parameters r a))
          | some handler ↦ do
            uri ← or_fail (handler signed) not_stored
            ok (
                set (codes "request_uri") uri
                  (erase (codes "request") (authorization_parameters r a)))
        ]

  unfoldable pub pushed_parameters : Rp → Asked → Except UrlError Values
  pushed_parameters r a =
      if not (is_signed r.request_method) then ok (authorization_parameters r a) else do
        signed ← or_fail (sign r a) not_signed
        let request = set (codes "request") signed []
        ok (set_if (r.resolved_auth_method == tls) (codes "client_id") r.client_id request)

  unfoldable pub asked_of : Rp → UrlConfig → Randomness → Except UrlError (Asked × Text)
  asked_of r cfg random = do
    state ← random_token random.for_state
    nonce ← random_token random.for_nonce
    verifier ← lift_pkce (generate_code_verifier random.for_verifier)
    challenge ← lift_pkce (code_challenge_s256 sum256 verifier)
    let asked : Asked = record {
      state = state;
      nonce = nonce;
      challenge = challenge;
      authorization_details = cfg.authorization_details;
      resources = elim cfg.resources [ none ↦ r.resources | some rs ↦ rs ];
      grant = cfg.grant_management;
      claims = if not (cfg.claims == []) then cfg.claims else r.claims_parameter;
      parameters = cfg.parameters;
    }
    ok (asked, verifier)

  -- The rest of `authorizationURL`, up to saving the correlation.
  abbrev pub prepare_pushed : Rp → Time → Time → Asked → Text → Except UrlError Prepared
  prepare_pushed r now later a verifier = do
    params ← pushed_parameters r a
    par ← push r params
    ok (record {
      state = a.state;
      correlation = correlation_of r now later a.nonce verifier a.resources (some par);
      redirect = set (codes "request_uri") par.request_uri (set (codes "client_id") r.client_id []);
    })

  abbrev pub prepare_plain : Rp → Time → Time → Asked → Text → Except UrlError Prepared
  prepare_plain r now later a verifier = do
    params ← redirect_parameters r a
    ok (record {
      state = a.state;
      correlation = correlation_of r now later a.nonce verifier a.resources none;
      redirect = params;
    })

  unfoldable pub prepare : Rp → UrlConfig → Randomness → Time → Time → Except UrlError Prepared
  unfolding should_use_par
  prepare r cfg random now later = do
    (a, verifier) ← asked_of r cfg random
    if should_use_par r
        then prepare_pushed r now later a verifier
        else prepare_plain r now later a verifier

  -- `authorizationURL` over a store: the method that it resolves is kept in the RP. `save` is
  -- SaveCorrelation, and `redirect` the query that url.URL makes for an endpoint; `parse` is url.Parse
  -- and `is_object` the test for a JSON object.
  unfoldable pub authorization_url :
      {S : Type 0}
      → (Text → Option Url)
      → (Text → Bool)
      → (S → Text → CallbackCorrelation → S × Bool)
      → (Text → Values → Option Text)
      → Rp
      → List UrlOption
      → Randomness
      → Time
      → Time
      → S
      → (Rp × S) × Except UrlError Text
  authorization_url parse is_object save redirect r opts random now later s =
      let cfg = apply_url_options parse is_object opts (url_config r) in
      elim (check_request r cfg) [
        | err e ↦ ((r, s), err e)
        | ok u ↦
            let (r', resolved) =
              apply_supported r r.provider.token_endpoint_auth_methods_supported in
            elim resolved [
              | err e ↦ ((r', s), err (refused e))
              | ok u ↦ elim (prepare r' cfg random now later) [
                | err e ↦ ((r', s), err e)
                | ok p ↦
                    let (s', saved) = save s p.state p.correlation in
                    (
                      (r', s'),
                      if not saved
                          then err not_saved
                          else or_fail (redirect r.provider.authorization_endpoint p.redirect)
                              bad_endpoint,
                    )
              ]
            ]
      ]
