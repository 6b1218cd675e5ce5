-- ===== src/Rp/Dpop/Retry.antt =====
-- rp/dpop.go: how often a request is sent, and which nonce is kept.
use mathlib.Core.Path.{subst}
use lanyard.Base.{
  ◌+◌, ◌≤◌, ◌≡◌, refl, sym, ap, ◌∙◌, ◌⊎◌, inl, inr, Bool, true, false, none, some, Text, arith, ok,
  if◌then◌else◌, ge→ltb, Bool-cases, Option-cases, Except-cases,
}
use lanyard.Http.{Time}
use lanyard.Rp.DpopNonce.{NonceStore, get, put, get-put}
use lanyard.Rp.Dpop.{
  Reply, Server, is_use_dpop_nonce, nonce_of, store_nonce, attempt, retry, do_request,
}

-- A nonce that was stored last is the one that is found.
get-stored :
    (s s' : NonceStore) (at t : Time) (endpoint nonce : Text) (reply : Reply)
    → s' ≡ store_nonce s at endpoint reply
    → nonce_of reply ≡ some nonce
    → at ≤ t
    → t ≤ at + s'.ttl
    → (get s' t endpoint).1 ≡ some nonce
unfolding store_nonce put
get-stored s s' at t endpoint nonce reply e n le fresh =
    let stored : s' ≡ put s at endpoint nonce = e ∙ rw (n, store_nonce) refl in
    subst (λ (x : NonceStore). t ≤ at + x.ttl → (get x t endpoint).1 ≡ some nonce) (sym stored)
      (λ f. get-put s at t endpoint nonce le ∙ rw (ge→ltb (at + s.ttl) t f) refl) fresh

module _ (server : Server) where
  open server use {W, send}

  -- The worlds that one attempt can end in: no request, or one.
  attempt_once :
      (w : W) (use_dpop : Bool) (nonce : Text)
      → let w' = (attempt server w use_dpop nonce).0 in
        (w' ≡ w) ⊎ (w' ≡ (send w (if use_dpop then some nonce else none)).0)
  unfolding attempt
  attempt_once w use_dpop nonce = ground arith

  -- A reply that was received came from a request.
  attempt-ok :
      (w w' : W) (use_dpop : Bool) (nonce : Text) (reply : Reply)
      → attempt server w use_dpop nonce ≡ (w', ok reply)
      → send w (if use_dpop then some nonce else none) ≡ (w', ok reply)
  unfolding attempt
  attempt-ok w w' use_dpop nonce reply h = ground arith

  -- The reply of the only request, whose nonce is stored where DPoP is used.
  pub record AtOnce (w w' : W) (s s' : NonceStore) (now : Time) (endpoint : Text) (use_dpop : Bool)
      (cached : Text) (reply : Reply) : Type 0 where
    pub sent : send w (if use_dpop then some cached else none) ≡ (w', ok reply)
    pub stored : s' ≡ (if use_dpop then store_nonce s now endpoint reply else s)
    pub accepted :
        (use_dpop ≡ false) ⊎ ((is_use_dpop_nonce reply ≡ false) ⊎ (nonce_of reply ≡ none))

  -- The reply of a second request, signed over the nonce of the first reply.
  pub record OnRetry (w w' : W) (s s' : NonceStore) (now later : Time) (endpoint cached : Text)
      (reply : Reply) : Type 0 where
    pub between : W
    pub challenge : Reply
    pub nonce : Text
    pub sent : send w (some cached) ≡ (between, ok challenge)
    pub challenged : is_use_dpop_nonce challenge ≡ true
    pub given : nonce_of challenge ≡ some nonce
    pub sent_again : send between (some nonce) ≡ (w', ok reply)
    pub stored : s' ≡ store_nonce (store_nonce s now endpoint challenge) later endpoint reply

  retry-ok :
      (w w' : W) (s s' : NonceStore) (now : Time) (endpoint : Text) (first reply : Reply)
      → retry server w s now endpoint first ≡ (w', s', ok reply)
      → (((is_use_dpop_nonce first ≡ false) ⊎ (nonce_of first ≡ none))
          × (w ≡ w')
          × (s ≡ s')
          × (first ≡ reply))
        ⊎ ((nonce : Text) × (is_use_dpop_nonce first ≡ true)
            × (nonce_of first ≡ some nonce)
            × (send w (some nonce) ≡ (w', ok reply))
            × (s' ≡ store_nonce s now endpoint reply))
  unfolding retry
  retry-ok w w' s s' now endpoint first reply h = elim (Bool-cases (is_use_dpop_nonce first)) [
    | inr n ↦
        let h' = rw (n, retry) at h in inl (inl n, ap (λ x. x.0) h', ap (λ x. x.1) h', ground arith)
    | inl y ↦ elim (Option-cases (nonce_of first)) [
      | inl q ↦
          let h' = rw (y, retry) at h in
          let h'' = rw q at h' in inl (inr q, ap (λ x. x.0) h'', ap (λ x. x.1) h'', ground arith)
      | inr (nonce, q) ↦
          let h' = rw (y, retry) at h in
          let h'' = rw q at h' in
          elim (Except-cases (attempt server w true nonce).1) [
            | inr (e, a) ↦ let h3 = rw a at h'' in absurd (ground arith)
            | inl (second, a) ↦
                let h3 = rw a at h'' in
                let same : second ≡ reply = ground arith in
                let got : attempt server w true nonce ≡ (w', ok reply) = ground arith in
                inr (
                  nonce,
                  y,
                  q,
                  attempt-ok w w' true nonce reply got,
                  sym (ap (λ x. x.1) h3) ∙ ap (λ x. store_nonce s now endpoint x) same,
                )
          ]
    ]
  ]

  finish :
      (w w1 w' : W) (s s' : NonceStore) (now later : Time) (endpoint cached : Text)
      (first reply : Reply)
      → send w (some cached) ≡ (w1, ok first)
      → retry server w1 (store_nonce s now endpoint first) later endpoint first ≡ (w', s', ok reply)
      → AtOnce w w' s s' now endpoint true cached reply
        ⊎ OnRetry w w' s s' now later endpoint cached reply
  finish w w1 w' s s' now later endpoint cached first reply sent h =
      elim (retry-ok w1 w' (store_nonce s now endpoint first) s' later endpoint first reply h) [
        | inl (why, world, store, same) ↦
            let got : send w (some cached) ≡ (w', ok reply) = ground arith in
            inl (record {
              sent = got;
              stored = sym store ∙ ap (λ x. store_nonce s now endpoint x) same;
              accepted =
                  inr (subst (λ x. (is_use_dpop_nonce x ≡ false) ⊎ (nonce_of x ≡ none)) same why);
            })
        | inr (nonce, asked, given, again, stored) ↦ inr (record {
          between = w1;
          challenge = first;
          nonce = nonce;
          sent = sent;
          challenged = asked;
          given = given;
          sent_again = again;
          stored = stored;
        })
      ]

  -- A request that gets a reply was sent once, or a second time where DPoP is used and the first reply
  -- asked for another nonce and gave one: then with that nonce. There is no third time. The nonces of
  -- the replies are stored, in their order.
  pub do_request-ok :
      (w w' : W) (s s' : NonceStore) (now later : Time) (endpoint : Text) (use_dpop : Bool)
      (cached : Text) (reply : Reply)
      → do_request server w s now later endpoint use_dpop cached ≡ (w', s', ok reply)
      → AtOnce w w' s s' now endpoint use_dpop cached reply
        ⊎ ((use_dpop ≡ true) × OnRetry w w' s s' now later endpoint cached reply)
  unfolding do_request
  do_request-ok w w' s s' now later endpoint false cached reply h =
      elim (Except-cases (attempt server w false cached).1) [
        | inr (e, a) ↦ let h' = rw (a, do_request) at h in absurd (ground arith)
        | inl (first, a) ↦
            let h' = rw (a, do_request) at h in
            let got : attempt server w false cached ≡ (w', ok reply) = ground arith in
            inl (record {
              sent = attempt-ok w w' false cached reply got;
              stored = sym (ap (λ x. x.1) h');
              accepted = inl refl;
            })
      ]
  do_request-ok w w' s s' now later endpoint true cached reply h =
      elim (Except-cases (attempt server w true cached).1) [
        | inr (e, a) ↦ let h' = rw (a, do_request) at h in absurd (ground arith)
        | inl (first, a) ↦
            let h' = rw (a, do_request) at h in
            let got : attempt server w true cached ≡ ((attempt server w true cached).0, ok first) =
              ground arith in
            elim (finish w (attempt server w true cached).0 w' s s' now later endpoint cached first
              reply (attempt-ok w (attempt server w true cached).0 true cached first got) h') [
                | inl once ↦ inl once
                | inr twice ↦ inr (refl, twice)
              ]
      ]

  -- After a DPoP request that got a reply with a nonce, that nonce is the one cached for the endpoint.
  pub get-do_request :
      (w w' : W) (s s' : NonceStore) (now later t : Time) (endpoint cached nonce : Text)
      (reply : Reply)
      → do_request server w s now later endpoint true cached ≡ (w', s', ok reply)
      → nonce_of reply ≡ some nonce
      → now ≤ later
      → later ≤ t
      → t ≤ now + s'.ttl
      → (get s' t endpoint).1 ≡ some nonce
  get-do_request w w' s s' now later t endpoint cached nonce reply h n le le' fresh =
      elim (do_request-ok w w' s s' now later endpoint true cached reply h) [
        | inl once ↦ get-stored s s' now t endpoint nonce reply once.stored n (omega arith) fresh
        | inr (on, twice) ↦
            get-stored (store_nonce s now endpoint twice.challenge) s' later t endpoint nonce reply
              twice.stored n le' (omega arith)
      ]
