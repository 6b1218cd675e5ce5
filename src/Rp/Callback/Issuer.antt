-- ===== src/Rp/Callback/Issuer.antt =====
-- rp/callback.go: which issuer a successful callback speaks for.
use lanyard.Base.{
  ◌≡◌, sym, ◌∙◌, ◌≢◌, ◌⊎◌, inl, inr, Bool, true, false, not, ◌&&◌, some, [], Text, ◌==◌, eq_iff, ok,
  arith, >>=-eq-ok, fail_if-ok, Bool-cases,
}
use lanyard.Http.{Request}
use lanyard.Store.{CallbackCorrelation, CorrelationStore}
use lanyard.Rp.{Rp, invalid_state}
use lanyard.Rp.Jose.{Jose}
use lanyard.Rp.Jarm.{is_jarm_response}
use lanyard.Rp.Callback.{
  CallbackParams, CallbackResult, Network, Response, extract_params, parse_response,
  response_issuer, check_response, expected_issuer, complete, handle_callback, identity,
}
use lanyard.Metadata.{Provider}
use lanyard.Rp.Callback.Complete.{complete-ok, with_correlation-ok}
use lanyard.Rp.Callback.Steps.{handle_callback-Steps}

jarm_test : (a : Bool) (x y : Text) → (a && not (x == y)) ≡ false → a ≡ true → x ≡ y
jarm_test a x y t h = ground (arith, eq_iff x y)

set_test : (a : Bool) (x : Text) → (a && x == []) ≡ false → a ≡ true → x ≢ []
set_test a x t h = ground (arith, eq_iff x [])

plain_test :
    (a : Bool) (x y : Text)
    → (a && x == []) ≡ false
    → (a && (not (x == []) && not (x == y))) ≡ false
    → a ≡ true
    → x ≡ y
plain_test a x y t u h = ground (arith, eq_iff x y, eq_iff x [])

pub check_response-ok :
    (j : Jose) (r : Rp) (net : Network) (params : CallbackParams) (resp : Response)
    (saved : CallbackCorrelation) (issuer : Text)
    → check_response j r net params resp saved ≡ ok issuer
    → (iss : Text) × (response_issuer j r net params resp saved ≡ ok iss)
      × (issuer ≡ expected_issuer r saved)
      × (is_jarm_response params.response ≡ true → iss ≡ issuer)
      × (r.validate_response_issuer ≡ true → (iss ≢ []) × (iss ≡ issuer))
unfolding check_response
check_response-ok j r net params resp saved issuer h =
    let (iss, found, h1) = >>=-eq-ok (response_issuer j r net params resp saved) _ h in
    let (t1, h2) =
      fail_if-ok (is_jarm_response params.response && not (iss == expected_issuer r saved))
        invalid_state _ h1 in
    let (t2, h3) = fail_if-ok (r.validate_response_issuer && iss == []) invalid_state _ h2 in
    let (t3, h4) =
      fail_if-ok
        (r.validate_response_issuer && (not (iss == []) && not (iss == expected_issuer r saved)))
        invalid_state _ h3 in
    let same : expected_issuer r saved ≡ issuer = cc in
    (
      iss,
      found,
      sym same,
      λ a. jarm_test _ iss _ t1 a ∙ same,
      λ a. (set_test _ iss t2 a, plain_test _ iss _ t2 t3 a ∙ same),
    )

complete-issuer :
    (j : Jose) (r : Rp) (net : Network) (p : Provider) (code : Text) (saved : CallbackCorrelation)
    (issuer : Text) (result : CallbackResult)
    → complete j r net p code saved (identity r saved issuer) ≡ ok result
    → result.issuer ≡ issuer
unfolding identity
complete-issuer j r net p code saved issuer result h =
    let (token, got, kind) = complete-ok j r net p code saved (identity r saved issuer) result h in
    elim kind [ inl (off, same) ↦ same | inr (on, behind) ↦ behind.issuer_is ]

-- A callback that succeeds has run with the issuer that was saved with the state, or else with the
-- configured one. Where the response is signed, or the check of `iss` is on, the issuer of the
-- response is that one; with the check on it is not missing.
pub callback_issuer :
    (j : Jose) (store : CorrelationStore) (s s' : store.S) (r r' : Rp) (net : Network)
    (req : Request) (result : CallbackResult)
    → handle_callback j store s r net (some req) ≡ (s', r', ok result)
    → (resp : Response) × (saved : CallbackCorrelation) × (iss : Text) × (parse_response j r net
          (extract_params req)
        ≡ ok resp)
      × (store.consume s net.store_time (some req) resp.state ≡ (s', ok (some saved)))
      × (response_issuer j r net (extract_params req) resp saved ≡ ok iss)
      × (result.issuer ≡ expected_issuer r saved)
      × ((is_jarm_response (extract_params req).response ≡ false) ⊎ (iss ≡ result.issuer))
      × ((r.validate_response_issuer ≡ false) ⊎ ((iss ≢ []) × (iss ≡ result.issuer)))
callback_issuer j store s s' r r' net req result h =
    let st = handle_callback-Steps j store s s' r r' net req result h in
    let (issuer, p, checked, found, done) =
      with_correlation-ok j r r' net (extract_params req) st.resp st.saved result st.finished in
    let (iss, got, is_expected, signed, on) =
      check_response-ok j r net (extract_params req) st.resp st.saved issuer checked in
    let same : result.issuer ≡ issuer =
      complete-issuer j r' net p st.resp.code st.saved issuer result done in
    (
      st.resp,
      st.saved,
      iss,
      st.parsed,
      st.taken,
      got,
      same ∙ is_expected,
      elim (Bool-cases (is_jarm_response (extract_params req).response)) [
        | inl a ↦ inr (signed a ∙ sym same)
        | inr a ↦ inl a
      ],
      elim (Bool-cases r.validate_response_issuer) [
        | inl a ↦ inr ((on a).0, (on a).1 ∙ sym same)
        | inr a ↦ inl a
      ],
    )
