-- ===== src/Rp/Callback/Identity.antt =====
-- rp/callback.go: whom a successful callback speaks for.
use mathlib.Core.Path.{subst}
use lanyard.Base.{◌≡◌, inl, inr, true, false, some, ok, arith}
use lanyard.Http.{Request}
use lanyard.Metadata.{Provider}
use lanyard.Store.{CallbackCorrelation, CorrelationStore}
use lanyard.Rp.{Rp}
use lanyard.Rp.Jose.{Jose}
use lanyard.Rp.Callback.{
  CallbackResult, Network, Response, extract_params, parse_response, expected_issuer,
  handle_callback, identity, uses_openid, Token, complete, provider_for_callback,
}
use lanyard.Rp.Endpoints.{token_endpoint}
use lanyard.Rp.Callback.Steps.{handle_callback-Steps}
use lanyard.Rp.Callback.Complete.{Identified, complete-ok, with_correlation-ok}
use lanyard.Rp.Callback.Issuer.{check_response-ok}

-- A callback that succeeds with the scope `openid` returns the subject, the `cnf` and the token of an ID
-- token that the token endpoint issued for the code of this response and the PKCE verifier that was
-- saved with its state. The token endpoint is that of the provider that providerForCallback returns
-- for the issuer of the flow. The validation of ID tokens, called with the nonce that was saved, the keys and
-- algorithms of that provider, and the issuer and client of the flow, returned the claims of that token:
-- they meet the conditions of OpenID Connect for the flow, at the times that time.Unix makes of exp and
-- iat; or the token is unsecured, where no FAPI profile is set and such tokens are allowed, and they meet
-- them for the issuer and client of the configuration.
pub callback_subject :
    (j : Jose) (store : CorrelationStore) (s s' : store.S) (r r' : Rp) (net : Network)
    (req : Request) (result : CallbackResult)
    → handle_callback j store s r net (some req) ≡ (s', r', ok result)
    → uses_openid r' ≡ true
    → (resp : Response) × (saved : CallbackCorrelation) × (p : Provider) × (token : Token)
      × (parse_response j r net (extract_params req) ≡ ok resp)
      × (store.consume s net.store_time (some req) resp.state ≡ (s', ok (some saved)))
      × (provider_for_callback r net (expected_issuer r saved) ≡ (r', ok p))
      × (net.exchange r'
            (token_endpoint r' p)
            resp.code
            saved.code_verifier
            saved.resources
            (identity r' saved (expected_issuer r saved))
          ≡ ok token)
      × Identified j r' net p saved (identity r' saved (expected_issuer r saved)) token result
callback_subject j store s s' r r' net req result h openid =
    let st = handle_callback-Steps j store s s' r r' net req result h in
    let (issuer, p, checked, found, done) =
      with_correlation-ok j r r' net (extract_params req) st.resp st.saved result st.finished in
    let (iss, got, is_expected, signed, on) =
      check_response-ok j r net (extract_params req) st.resp st.saved issuer checked in
    let done' =
      subst (λ i. complete j r' net p st.resp.code st.saved (identity r' st.saved i) ≡ ok result)
        is_expected done in
    let found' = subst (λ i. provider_for_callback r net i ≡ (r', ok p)) is_expected found in
    let (token, exchanged, behind) = complete-ok j r' net p st.resp.code st.saved _ result done' in
    (
      st.resp,
      st.saved,
      p,
      token,
      st.parsed,
      st.taken,
      found',
      exchanged,
      elim behind [
        | inl (off, same) ↦ let c : false ≡ true = cc in absurd (ground arith)
        | inr (on, w) ↦ w
      ],
    )
