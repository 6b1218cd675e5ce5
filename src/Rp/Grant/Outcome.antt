-- ===== src/Rp/Grant/Outcome.antt =====
-- rp/token_exchange.go: what a token grant returns, and what it leaves of the negotiation.
use mathlib.Core.Path.{subst}
use lanyard.Base.{
  ◌≡◌, refl, sym, ap, ◌∙◌, ◌≢◌, ◌⊎◌, inl, inr, Bool, true, false, not, ◌&&◌, ◌||◌, [], Text, codes,
  ◌==◌, eq_iff, eqb, equal_fold, trim_space, Except, ok, err, if◌then◌else◌, arith, Bool-cases,
  Except-cases, fail_if-ok,
}
use lanyard.Rp.{Rp}
use lanyard.Rp.AuthMethod.{post, basic}
use lanyard.Rp.Callback.{Token}
use lanyard.Rp.Grant.{
  GrantResult, GrantError, TokenServer, accept, is_dpop, status_ok, sender_constraint_violated,
  malformed_token, execute_token_grant, retry_basic, set_auth_method_state,
  should_fallback_to_basic, token_endpoint_status_error,
}

-- A token that a client may take: complete, and bound to the DPoP key where that is required.
pub record Acceptable (r : Rp) (token : Token) : Type 0 where
  pub has_access_token : trim_space token.access_token ≢ []
  pub has_type : trim_space token.token_type ≢ []
  pub is_bound :
      is_dpop r.sender_constrain ≡ true
      → equal_fold (trim_space token.token_type) (codes "DPoP") ≡ true

both_set : (x y : Text) → (x == [] || y == []) ≡ false → (x ≢ []) × (y ≢ [])
both_set x y h = (ground (arith, eq_iff x []), ground (arith, eq_iff y []))

bound : (a b : Bool) → (a && not b) ≡ false → a ≡ true → b ≡ true
bound a b h t = ground arith

accept-Acceptable : (r : Rp) (t token : Token) → accept r t ≡ ok token → Acceptable r token
unfolding accept
accept-Acceptable r t token h =
    let (u, h1) =
      fail_if-ok
        (is_dpop r.sender_constrain && not (equal_fold (trim_space t.token_type) (codes "DPoP")))
        sender_constraint_violated _ h in
    let (v, h2) =
      fail_if-ok (trim_space t.access_token == [] || trim_space t.token_type == []) malformed_token
        _ h1 in
    let same : t ≡ token = ground arith in
    let whole = both_set (trim_space t.access_token) (trim_space t.token_type) v in
    subst (λ x. Acceptable r x) same
      (record { has_access_token = whole.0; has_type = whole.1; is_bound = bound _ _ u })

accept-same : (r : Rp) (t token : Token) → accept r t ≡ ok token → t ≡ token
unfolding accept
accept-same r t token h =
    let (u, h1) =
      fail_if-ok
        (is_dpop r.sender_constrain && not (equal_fold (trim_space t.token_type) (codes "DPoP")))
        sender_constraint_violated _ h in
    let (v, h2) =
      fail_if-ok (trim_space t.access_token == [] || trim_space t.token_type == []) malformed_token
        _ h1 in
    ground arith

module _ (server : TokenServer) where
  open server use {W, run}

  -- The first attempt is taken.
  pub record TakenAtOnce (w w' : W) (r r' : Rp) (token : Token) : Type 0 where
    pub result : GrantResult
    pub answered : run w r.resolved_auth_method ≡ (w', ok result)
    pub succeeded : result.status ≡ status_ok
    pub token_is : result.token ≡ token
    pub settled : r' ≡ (
        if r.allow_method_fallback then set_auth_method_state r r.resolved_auth_method false else r)

  -- The first attempt is refused with 400 or 401, and the one with client_secret_basic is taken.
  pub record TakenOnRetry (w w' : W) (r r' : Rp) (token : Token) : Type 0 where
    pub between : W
    pub refused : GrantResult
    pub result : GrantResult
    pub may_retry : r.allow_method_fallback ≡ true
    pub was_post : r.resolved_auth_method ≡ post
    pub answered : run w r.resolved_auth_method ≡ (between, ok refused)
    pub refusal : should_fallback_to_basic refused.status ≡ true
    pub answered_basic : run between basic ≡ (w', ok result)
    pub succeeded : result.status ≡ status_ok
    pub token_is : result.token ≡ token
    pub settled : r' ≡ set_auth_method_state r basic false

  retry_basic-ok :
      (w w' : W) (r r' : Rp) (token : Token)
      → retry_basic server w r ≡ (w', r', ok token)
      → (result : GrantResult) × (run w basic ≡ (w', ok result))
        × (result.status ≡ status_ok)
        × (accept r result.token ≡ ok token)
        × (r' ≡ set_auth_method_state r basic false)
  unfolding retry_basic
  retry_basic-ok w w' r r' token h = elim (Except-cases (run w basic).1) [
    | inr (e, q) ↦ let h' = rw (q, retry_basic) at h in absurd (ground arith)
    | inl (result, q) ↦
        let h' = rw (q, retry_basic) at h in
        elim (Bool-cases (eqb result.status status_ok)) [
          | inr n ↦ let h'' = rw n at h' in absurd (ground arith)
          | inl y ↦
              let h'' = rw y at h' in
              elim (Except-cases (accept r result.token)) [
                | inr (e, a) ↦ let h3 = rw a at h'' in absurd (ground arith)
                | inl (t, a) ↦
                    let h3 = rw a at h'' in
                    (
                      result,
                      ground arith,
                      ground arith,
                      a ∙ ap (λ x. x.2) h3,
                      sym (ap (λ x. x.1) h3),
                    )
              ]
        ]
  ]

  -- A grant that succeeds returns an acceptable token: of the first attempt, or, only where the
  -- method was not settled and client_secret_post was refused with 400 or 401, of a second one.
  pub execute_token_grant-ok :
      (w w' : W) (r r' : Rp) (token : Token)
      → execute_token_grant server w r ≡ (w', r', ok token)
      → Acceptable r token × (TakenAtOnce w w' r r' token ⊎ TakenOnRetry w w' r r' token)
  unfolding execute_token_grant
  execute_token_grant-ok w w' r r' token h = elim (Except-cases (run w r.resolved_auth_method).1) [
    | inr (e, q) ↦ let h' = rw (q, execute_token_grant) at h in absurd (ground arith)
    | inl (result, q) ↦
        let h' = rw (q, execute_token_grant) at h in
        elim (Bool-cases (eqb result.status status_ok)) [
          | inl y ↦
              let h'' = rw y at h' in
              elim (Except-cases (accept r result.token)) [
                | inr (e, a) ↦ let h3 = rw a at h'' in absurd (ground arith)
                | inl (t, a) ↦
                    let h3 = rw a at h'' in
                    let got : accept r result.token ≡ ok token = a ∙ ap (λ x. x.2) h3 in
                    (
                      accept-Acceptable r result.token token got,
                      inl (record {
                        result = result;
                        answered = ground arith;
                        succeeded = ground arith;
                        token_is = accept-same r result.token token got;
                        settled = sym (ap (λ x. x.1) h3);
                      }),
                    )
              ]
          | inr n ↦
              let h'' = rw n at h' in
              elim (Bool-cases (
                r.allow_method_fallback
                && (r.resolved_auth_method == post && should_fallback_to_basic result.status))) [
                  | inr once ↦ let h3 = rw once at h'' in absurd (ground arith)
                  | inl again ↦
                      let h3 : retry_basic server (run w r.resolved_auth_method).0 r
                          ≡ (w', r', ok token) =
                        rw again at h'' in
                      let (second, answered, succeeded, got, settled) =
                        retry_basic-ok (run w r.resolved_auth_method).0 w' r r' token h3 in
                      (
                        accept-Acceptable r second.token token got,
                        inr (record {
                          between = (run w r.resolved_auth_method).0;
                          refused = result;
                          result = second;
                          may_retry = ground arith;
                          was_post = ground (arith, eq_iff r.resolved_auth_method post);
                          answered = ground arith;
                          refusal = ground arith;
                          answered_basic = answered;
                          succeeded = succeeded;
                          token_is = accept-same r second.token token got;
                          settled = settled;
                        }),
                      )
                ]
        ]
  ]

  -- Once the method is settled, a grant is one request with that method, whatever the answer, and
  -- leaves the RP as it was.
  pub execute_token_grant_settled :
      (w : W) (r : Rp)
      → r.allow_method_fallback ≡ false
      → (answer : Except GrantError Token) × (execute_token_grant server w r
          ≡ ((run w r.resolved_auth_method).0, r, answer))
  unfolding execute_token_grant
  execute_token_grant_settled w r off = elim (Except-cases (run w r.resolved_auth_method).1) [
    | inr (e, q) ↦ (err e, rw (q, execute_token_grant) refl)
    | inl (result, q) ↦ elim (Bool-cases (eqb result.status status_ok)) [
      | inr n ↦ (
        err (token_endpoint_status_error server result),
        rw (q, execute_token_grant) (rw (n, off) refl),
      )
      | inl y ↦ elim (Except-cases (accept r result.token)) [
        | inr (e, a) ↦ (err e, rw (q, execute_token_grant) (rw (y, a) refl))
        | inl (t, a) ↦ (ok t, rw (q, execute_token_grant) (rw (y, a, off) refl))
      ]
    ]
  ]

  -- A success settles the method: no later grant tries a second one.
  pub execute_token_grant-settles :
      (w w' : W) (r r' : Rp) (token : Token)
      → execute_token_grant server w r ≡ (w', r', ok token)
      → (r'.allow_method_fallback ≡ false)
        × ((r'.resolved_auth_method ≡ r.resolved_auth_method) ⊎ (r'.resolved_auth_method ≡ basic))
  unfolding set_auth_method_state
  execute_token_grant-settles w w' r r' token h =
      elim (execute_token_grant-ok w w' r r' token h).1 [
        | inl t ↦ elim (Bool-cases r.allow_method_fallback) [
          | inl y ↦
              let e : r' ≡ set_auth_method_state r r.resolved_auth_method false =
                t.settled ∙ rw y refl in
              (ap (λ x. x.allow_method_fallback) e, inl (ap (λ x. x.resolved_auth_method) e))
          | inr n ↦
              let e : r' ≡ r = t.settled ∙ rw n refl in
              (ap (λ x. x.allow_method_fallback) e ∙ n, inl (ap (λ x. x.resolved_auth_method) e))
        ]
        | inr t ↦ (
          ap (λ x. x.allow_method_fallback) t.settled,
          inr (ap (λ x. x.resolved_auth_method) t.settled),
        )
      ]
