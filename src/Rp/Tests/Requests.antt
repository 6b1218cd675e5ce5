-- ===== src/Rp/Tests/Requests.antt =====
-- Runs of rp/http.go, rp/dpop.go and rp/authrequest.go on small inputs.
use lanyard.Base.{
  ℕ, zero, suc, ◌≤◌, ◌≡◌, refl, ◌⊎◌, true, Option, none, some, List, [], ◌∷◌, Text, codes, ◌==◌,
  length, Except, ok, contains, has_prefix,
}
use lanyard.Base.Maps.{insert}
use lanyard.Base.Base64.{encode, digit}
use lanyard.Http.{second}
use lanyard.Metadata.Validate.{Url}
use lanyard.Rp.{Rp}
use lanyard.Rp.Endpoints.{par_endpoint}
use lanyard.Rp.Redirects.{RedirectError, first, follows, AllHost, check_redirect, redirects_stay}
use lanyard.Rp.DpopNonce.{NonceStore, put}
use lanyard.Rp.Dpop.{Reply, Server, is_use_dpop_nonce, store_nonce, attempt, retry, do_request}
use lanyard.Rp.Dpop.Retry.{AtOnce, OnRetry, do_request-ok}
use lanyard.Rp.Pkce.{
  generate_code_verifier, validate_code_verifier, code_challenge_s256, is_allowed, allowed,
  min_length, max_length,
}
use lanyard.Rp.RequestObject.{Values, Asked, get, set}
use lanyard.Rp.UrlOptions.{UrlConfig}
use lanyard.Base.Int.{pos}
use lanyard.Rp.AuthRequest.{
  add_duration, lifetime, ParResponse, UrlError, Randomness, Prepared, random_token,
  authorization_parameters, correlation_of, should_use_par, redirect_parameters, pushed_parameters,
  asked_of, prepare,
}
use lanyard.Rp.AuthRequest.Kept.{Bound, prepare-Bound, prepare_pushed-Bound}
use lanyard.Rp.Tests.{client}

abbrev url_of : Text → Url
url_of query = record {
  scheme = codes "https";
  host = codes "op";
  hostname = codes "op";
  raw_query = query;
  fragment = [];
}

abbrev any_policy : Url → List Url → Except RedirectError (Unit {0})
any_policy u via = ok tt

redirected : check_redirect any_policy (url_of (codes "2")) (url_of (codes "1")) [] ≡ ok tt
unfolding check_redirect ◌==◌
redirected = refl

redirects_stay_example :
    (length (url_of (codes "2") ∷ url_of (codes "1") ∷ []) ≤ 10)
    × AllHost (codes "op") (url_of (codes "2") ∷ url_of (codes "1") ∷ [])
redirects_stay_example =
    redirects_stay any_policy (url_of (codes "2")) (url_of (codes "1") ∷ [])
      (follows (url_of (codes "2")) (url_of (codes "1")) [] (first (url_of (codes "1"))) redirected)

abbrev challenge : Reply
challenge = record { status = 401; www_authenticate = []; dpop_nonce = codes "n"; preview = [] }

abbrev accepted : Reply
accepted = record { status = 200; www_authenticate = []; dpop_nonce = []; preview = [] }

abbrev answer : ℕ → Reply
answer zero = challenge
answer (suc n) = accepted

-- A server that asks for a nonce first; its state counts the requests.
abbrev server : Server
server = record {
  W = ℕ;
  builds = λ w. true;
  signs = λ w nonce. true;
  send = λ w nonce. (suc w, ok (answer w));
}

abbrev nonces : NonceStore
nonces = record { ttl = second; m = [] }

do_request-ok_example :
    AtOnce server 0 2 nonces
      (store_nonce nonces 5 (codes "op") challenge)
      5
      (codes "op")
      true
      []
      accepted
    ⊎ ((true ≡ true)
        × OnRetry server 0 2 nonces
            (store_nonce nonces 5 (codes "op") challenge)
            5
            6
            (codes "op")
            []
            accepted)
unfolding do_request attempt retry is_use_dpop_nonce store_nonce put insert contains has_prefix ◌==◌
do_request-ok_example =
    do_request-ok server 0 2 nonces (store_nonce nonces 5 (codes "op") challenge) 5 6 (codes "op")
      true [] accepted refl

abbrev zeros : ℕ → List ℕ
zeros zero = []
zeros (suc n) = 0 ∷ zeros n

abbrev sum256 : Text → List ℕ
sum256 t = zeros 32

abbrev unsigned : Rp → Asked → Option Text
unsigned r a = none

abbrev par : ParResponse
par = record { request_uri = codes "urn:1"; expires_in = pos 60 }

abbrev push : Rp → Values → Except UrlError ParResponse
push r params = ok par

abbrev config : UrlConfig
config = record {
  authorization_details = [];
  parameters = (codes "state", codes "x" ∷ []) ∷ [];
  resources = none;
  grant_management = none;
  claims = [];
  error = none;
}

abbrev random : Randomness
random = record {
  for_state = some (1 ∷ []);
  for_nonce = some (2 ∷ []);
  for_verifier = some (zeros 32);
}

abbrev asked : Asked
asked = record {
  state = encode (1 ∷ []);
  nonce = encode (2 ∷ []);
  challenge = encode (zeros 32);
  authorization_details = [];
  resources = [];
  grant = none;
  claims = [];
  parameters = config.parameters;
}

abbrev prepared : Prepared
prepared = record {
  state = encode (1 ∷ []);
  correlation = correlation_of client 7 8 (encode (2 ∷ [])) (encode (zeros 32)) [] none;
  redirect = authorization_parameters client asked;
}

prepare-Bound_example :
    Bound sum256 client prepared prepared.redirect × (prepared.correlation.expiry ≡ 0)
unfolding prepare asked_of should_use_par redirect_parameters correlation_of random_token
    generate_code_verifier validate_code_verifier code_challenge_s256 is_allowed allowed min_length
    max_length encode digit par_endpoint ◌==◌
prepare-Bound_example =
    prepare-Bound sum256 unsigned push client config random 7 8 prepared refl refl refl

abbrev pushing : Rp
pushing = record client { require_par = true }

abbrev pushed : Prepared
pushed = record prepared {
  correlation = correlation_of pushing 7 8 (encode (2 ∷ [])) (encode (zeros 32)) [] (some par);
  redirect =
      set (codes "request_uri") par.request_uri (set (codes "client_id") client.client_id []);
}

prepare_pushed-Bound_example :
    (params : Values) × (p : ParResponse) × (push pushing params ≡ ok p)
    × Bound sum256 pushing pushed params
    × (get (codes "request_uri") pushed.redirect ≡ p.request_uri)
    × (pushed.correlation.expiry ≡ add_duration 8 (lifetime p.expires_in))
unfolding prepare asked_of should_use_par pushed_parameters correlation_of random_token
    generate_code_verifier validate_code_verifier code_challenge_s256 is_allowed allowed min_length
    max_length encode digit ◌==◌
prepare_pushed-Bound_example =
    prepare_pushed-Bound sum256 unsigned push pushing config random 7 8 pushed refl refl refl
