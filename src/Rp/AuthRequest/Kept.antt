-- ===== src/Rp/AuthRequest/Kept.antt =====
-- rp/authrequest.go: the request that goes out and the correlation that is kept belong together.
use mathlib.Core.Path.{subst}
use lanyard.Base.{
  ℕ, ◌≡◌, refl, ap, sym, ◌∙◌, Bool, true, false, Option, List, Text, codes, Except, ok, err,
  >>=-eq-ok, arith, if◌then◌else◌,
}
use lanyard.Http.{Time}
use lanyard.Rp.{Rp, plain}
use lanyard.Rp.Pkce.{PkceError, generate_code_verifier, code_challenge_s256}
use lanyard.Rp.Options.{is_signed}
use lanyard.Rp.RequestObject.{Values, get, Asked}
use lanyard.Rp.UrlOptions.{UrlConfig}
use lanyard.Rp.AuthRequest.{
  add_duration, lifetime, ParResponse, UrlError, Randomness, Prepared, random_token, lift_pkce,
  authorization_parameters, correlation_of, should_use_par, redirect_parameters, pushed_parameters,
  asked_of, prepare,
}
use lanyard.Rp.AuthRequest.Parameters.{Sent, first-set, authorization_parameters-Sent}

-- The correlation of a request goes with parameters: they carry the state that it is saved under, its
-- nonce and the S256 challenge of its verifier.
pub record Bound (sum256 : Text → List ℕ) (r : Rp) (p : Prepared) (vs : Values) : Type 0 where
  pub sent : Sent r p.state p.correlation.nonce (get (codes "code_challenge") vs) vs
  pub verified :
      code_challenge_s256 sum256 p.correlation.code_verifier ≡ ok (get (codes "code_challenge") vs)
  pub same_issuer : p.correlation.issuer ≡ r.issuer
  pub same_client : p.correlation.client_id ≡ r.client_id

taken_true : {A : Type 0} (b : Bool) (x y : A) {z : A} → b ≡ true → (if b then x else y) ≡ z → x ≡ z
taken_true true x y q h = h
taken_true false x y q h = absurd (ground arith)

taken_false :
    {A : Type 0} (b : Bool) (x y : A) {z : A} → b ≡ false → (if b then x else y) ≡ z → y ≡ z
taken_false false x y q h = h
taken_false true x y q h = absurd (ground arith)

module _ (sum256 : Text → List ℕ) (sign : Rp → Asked → Option Text)
    (push : Rp → Values → Except UrlError ParResponse) where
  lift_pkce-ok : {A : Type 0} (x : Except PkceError A) (a : A) → lift_pkce x ≡ ok a → x ≡ ok a
  lift_pkce-ok (ok b) a h = cc
  lift_pkce-ok (err e) a h = cc

  unwrap : {A : Type 0} {x y : A} → ◌≡◌ {A = Except UrlError A} (ok x) (ok y) → x ≡ y
  unwrap h = cc

  -- The challenge that is asked for is the verifier's.
  asked_of-challenge :
      (r : Rp) (cfg : UrlConfig) (random : Randomness) (a : Asked) (verifier : Text)
      → asked_of sum256 sign push r cfg random ≡ ok (a, verifier)
      → code_challenge_s256 sum256 verifier ≡ ok a.challenge
  unfolding asked_of
  asked_of-challenge r cfg random a verifier h =
      let (state, q1, h1) = >>=-eq-ok (random_token random.for_state) _ h in
      let (nonce, q2, h2) = >>=-eq-ok (random_token random.for_nonce) _ h1 in
      let (v, q3, h3) = >>=-eq-ok (lift_pkce (generate_code_verifier random.for_verifier)) _ h2 in
      let (ch, q4, h4) = >>=-eq-ok (lift_pkce (code_challenge_s256 sum256 v)) _ h3 in
      subst (λ x. code_challenge_s256 sum256 x.1 ≡ ok x.0.challenge) (unwrap h4)
        (lift_pkce-ok (code_challenge_s256 sum256 v) ch q4)

  bound :
      (r : Rp) (a : Asked) (verifier : Text) (p : Prepared)
      → code_challenge_s256 sum256 verifier ≡ ok a.challenge
      → p.state ≡ a.state
      → p.correlation.nonce ≡ a.nonce
      → p.correlation.code_verifier ≡ verifier
      → p.correlation.issuer ≡ r.issuer
      → p.correlation.client_id ≡ r.client_id
      → Bound sum256 r p (authorization_parameters r a)
  bound r a verifier p c s n v i d =
      let f = authorization_parameters-Sent r a in
      record {
        sent = record {
          own_state = f.own_state ∙ sym s;
          own_nonce = f.own_nonce ∙ sym n;
          own_challenge = refl;
          own_method = f.own_method;
          own_client = f.own_client;
          own_redirect = f.own_redirect;
        };
        verified = rw v c ∙ ap ok (sym f.own_challenge);
        same_issuer = i;
        same_client = d;
      }

  redirect_plain :
      (r : Rp) (a : Asked)
      → r.request_method ≡ plain
      → redirect_parameters sum256 sign push r a ≡ ok (authorization_parameters r a)
  unfolding redirect_parameters
  redirect_plain r a h = rw (ap is_signed h, redirect_parameters) refl

  pushed_plain :
      (r : Rp) (a : Asked)
      → r.request_method ≡ plain
      → pushed_parameters sum256 sign push r a ≡ ok (authorization_parameters r a)
  unfolding pushed_parameters
  pushed_plain r a h = rw (ap is_signed h, pushed_parameters) refl

  -- A request whose parameters are sent with the browser, unsigned: they are bound to the correlation
  -- that is kept for its callback, which does not expire on its own.
  pub prepare-Bound :
      (r : Rp) (cfg : UrlConfig) (random : Randomness) (now later : Time) (p : Prepared)
      → should_use_par r ≡ false
      → r.request_method ≡ plain
      → prepare sum256 sign push r cfg random now later ≡ ok p
      → Bound sum256 r p p.redirect × (p.correlation.expiry ≡ 0)
  unfolding prepare redirect_parameters correlation_of
  prepare-Bound r cfg random now later p direct unsigned h =
      let ((a, v), asked, h1) = >>=-eq-ok (asked_of sum256 sign push r cfg random) _ h in
      let c = asked_of-challenge r cfg random a v asked in
      let (params, made, h2) =
        >>=-eq-ok (redirect_parameters sum256 sign push r a) _
          (taken_false (should_use_par r) _ _ direct h1) in
      let whole = unwrap (sym (redirect_plain r a unsigned) ∙ made) in
      subst (λ q. Bound sum256 r q q.redirect × (q.correlation.expiry ≡ 0)) (unwrap h2)
        (subst (Bound sum256 r _) whole (bound r a v _ c refl refl refl refl refl), refl)

  -- A pushed request, unsigned: the provider was sent parameters bound to the correlation, the browser is
  -- sent its request URI, and the correlation expires the lifetime of that after `later`: expires_in
  -- seconds, as an int64 of nanoseconds that wraps.
  pub prepare_pushed-Bound :
      (r : Rp) (cfg : UrlConfig) (random : Randomness) (now later : Time) (p : Prepared)
      → should_use_par r ≡ true
      → r.request_method ≡ plain
      → prepare sum256 sign push r cfg random now later ≡ ok p
      → (params : Values) × (par : ParResponse) × (push r params ≡ ok par)
        × Bound sum256 r p params
        × (get (codes "request_uri") p.redirect ≡ par.request_uri)
        × (p.correlation.expiry ≡ add_duration later (lifetime par.expires_in))
  unfolding prepare pushed_parameters correlation_of
  prepare_pushed-Bound r cfg random now later p pushed unsigned h =
      let ((a, v), asked, h1) = >>=-eq-ok (asked_of sum256 sign push r cfg random) _ h in
      let c = asked_of-challenge r cfg random a v asked in
      let (params, made, h2) =
        >>=-eq-ok (pushed_parameters sum256 sign push r a) _
          (taken_true (should_use_par r) _ _ pushed h1) in
      let whole = unwrap (sym (pushed_plain r a unsigned) ∙ made) in
      let (par, answered, h3) = >>=-eq-ok (push r params) _ h2 in
      subst
        (λ q.
          (params : Values) × (par : ParResponse) × (push r params ≡ ok par)
          × Bound sum256 r q params
          × (get (codes "request_uri") q.redirect ≡ par.request_uri)
          × (q.correlation.expiry ≡ add_duration later (lifetime par.expires_in)))
        (unwrap h3)
        (
          params,
          par,
          answered,
          subst (Bound sum256 r _) whole (bound r a v _ c refl refl refl refl refl),
          first-set (codes "request_uri") par.request_uri _,
          refl,
        )
