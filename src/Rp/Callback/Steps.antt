-- ===== src/Rp/Callback/Steps.antt =====
-- rp/callback.go: what a callback that succeeds has done.
use lanyard.Base.{
  ◌≡◌, ◌≢◌, inl, inr, none, some, [], ◌==◌, eq_iff, ok, arith, Bool-cases, Except-cases,
}
use lanyard.Http.{Request}
use lanyard.Store.{CallbackCorrelation, CorrelationStore}
use lanyard.Rp.{Rp}
use lanyard.Rp.Jose.{Jose}
use lanyard.Rp.Callback.{
  CallbackResult, Network, Response, extract_params, parse_response, with_correlation, consumed,
  handle_callback,
}

module _ (j : Jose) (store : CorrelationStore) where
  open store use {S, consume}

  -- The correlation and the response of a successful callback.
  pub record Steps (s s' : S) (r r' : Rp) (net : Network) (req : Request) (result : CallbackResult)
      : Type 0 where
    pub resp : Response
    pub saved : CallbackCorrelation
    pub parsed : parse_response j r net (extract_params req) ≡ ok resp
    pub has_state : resp.state ≢ []
    pub has_code : resp.code ≢ []
    pub taken : consume s net.store_time (some req) resp.state ≡ (s', ok (some saved))
    pub finished : with_correlation j r net (extract_params req) resp saved ≡ (r', ok result)

  consumed-Steps :
      (s s' : S) (r r' : Rp) (net : Network) (req : Request) (resp : Response)
      (result : CallbackResult)
      → consumed j store s r net req (extract_params req) resp ≡ (s', r', ok result)
      → (saved : CallbackCorrelation) × (consume s net.store_time (some req) resp.state
          ≡ (s', ok (some saved)))
        × (with_correlation j r net (extract_params req) resp saved ≡ (r', ok result))
  unfolding consumed
  consumed-Steps s s' r r' net req resp result h =
      elim (Except-cases (consume s net.store_time (some req) resp.state).1) [
        | inr (e, q) ↦ let h' = rw (q, consumed) at h in absurd (ground arith)
        | inl (none, q) ↦ let h' = rw (q, consumed) at h in absurd (ground arith)
        | inl (some c, q) ↦ let h' = rw (q, consumed) at h in (c, ground arith, ground arith)
      ]

  -- A callback succeeds only along these steps.
  pub handle_callback-Steps :
      (s s' : S) (r r' : Rp) (net : Network) (req : Request) (result : CallbackResult)
      → handle_callback j store s r net (some req) ≡ (s', r', ok result)
      → Steps s s' r r' net req result
  unfolding handle_callback
  handle_callback-Steps s s' r r' net req result h =
      elim (Except-cases (parse_response j r net (extract_params req))) [
        | inr (e, q) ↦ let h' = rw (q, handle_callback) at h in absurd (ground arith)
        | inl (resp, q) ↦ elim (Bool-cases (resp.state == [])) [
          | inl a ↦
              let h' = rw (q, handle_callback) at h in let h'' = rw a at h' in absurd (ground arith)
          | inr a ↦ elim (Bool-cases (resp.code == [])) [
            | inl b ↦
                let h' = rw (q, handle_callback) at h in
                let h'' = rw (a, b) at h' in absurd (ground arith)
            | inr b ↦
                let h' = rw (q, handle_callback) at h in
                let h'' : consumed j store s r net req (extract_params req) resp
                    ≡ (s', r', ok result) =
                  rw (a, b) at h' in
                let (saved, taken, finished) = consumed-Steps s s' r r' net req resp result h'' in
                record {
                  resp = resp;
                  saved = saved;
                  parsed = q;
                  has_state = ground (arith, eq_iff resp.state []);
                  has_code = ground (arith, eq_iff resp.code []);
                  taken = taken;
                  finished = finished;
                }
          ]
        ]
      ]
