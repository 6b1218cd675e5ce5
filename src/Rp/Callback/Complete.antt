-- ===== src/Rp/Callback/Complete.antt =====
-- rp/callback.go: what lies behind the result of a callback.
use mathlib.Core.Path.{subst}
use lanyard.Base.{
  ◌≡◌, refl, sym, ap, ◌∙◌, ◌⊎◌, inl, inr, Bool, true, false, not, none, [], Text, ◌==◌, Except, ok,
  err, arith, >>=-eq-ok, fail_if-ok, Except-cases, if◌then◌else◌,
}
use lanyard.Metadata.{Provider}
use lanyard.Store.{CallbackCorrelation}
use lanyard.Rp.{
  Rp, RpError, is_fapi, token_exchange_failed, user_info_validation_failed,
  id_token_validation_failed, absent, IdTokenProblem,
}
use lanyard.Rp.Jose.{Jose, Claims}
use lanyard.Rp.IdToken.Valid.{IsAccepted}
use lanyard.Rp.IdToken.Policy.{validate_id_token_sound}
use lanyard.Rp.IdToken.{FlowIdentity}
use lanyard.Rp.IdToken.Verify.{own_identity, validate_id_token}
use lanyard.Rp.Endpoints.{token_endpoint}
use lanyard.Rp.Callback.{
  CallbackParams, CallbackResult, Network, Response, Token, check_response, with_correlation,
  complete, identify, identity, provider_for_callback, user_info, unidentified, result_of,
  uses_openid, lift_problem,
}

lift_problem-eq-ok :
    {A : Type 0} (m : Except IdTokenProblem A) {a : A} → lift_problem m ≡ ok a → m ≡ ok a
lift_problem-eq-ok (ok x) h = ground arith
lift_problem-eq-ok (err e) h = cc

module _ (j : Jose) where
  -- The ID token behind a result.
  pub record Identified (r : Rp) (net : Network) (p : Provider) (saved : CallbackCorrelation)
      (id : FlowIdentity) (token : Token) (result : CallbackResult) : Type 0 where
    pub claims : Claims
    pub validated :
        validate_id_token j r net.token_time net.key_sets token.id_token saved.nonce p.jwks_uri
          p.id_token_signing_alg_values_supported id
        ≡ ok claims
    -- For the flow; an unsecured token, where those are allowed, for the client itself.
    pub accepted :
        IsAccepted r net.token_time claims saved.nonce id
        ⊎ ((is_fapi r.profile ≡ false)
            × (r.allow_unsecured_id_tokens ≡ true)
            × IsAccepted r net.token_time claims saved.nonce (own_identity r))
    pub subject_is : result.subject ≡ claims.subject
    pub cnf_is : result.cnf ≡ claims.cnf
    pub issuer_is : result.issuer ≡ id.issuer
    pub token_is : result.token ≡ token

  validated-IsAccepted :
      (r : Rp) (net : Network) (p : Provider) (saved : CallbackCorrelation) (id : FlowIdentity)
      (token : Token) (c : Claims)
      → validate_id_token j r net.token_time net.key_sets token.id_token saved.nonce p.jwks_uri
          p.id_token_signing_alg_values_supported id
        ≡ ok c
      → IsAccepted r net.token_time c saved.nonce id
        ⊎ ((is_fapi r.profile ≡ false)
            × (r.allow_unsecured_id_tokens ≡ true)
            × IsAccepted r net.token_time c saved.nonce (own_identity r))
  validated-IsAccepted r net p saved id token c valid =
      let (plain, t, h, hs, decrypted, parsed, has, inside, kind) =
        validate_id_token_sound j r net.token_time net.key_sets token.id_token saved.nonce
          p.jwks_uri p.id_token_signing_alg_values_supported id c valid in
      elim kind [
        | inl (bare, u) ↦ let (off, allowed, read, accepted) = u in inr (off, allowed, accepted)
        | inr (signed, u) ↦ let (keys, from, verified, accepted) = u in inl accepted
      ]

  identify-Identified :
      (r : Rp) (net : Network) (p : Provider) (saved : CallbackCorrelation) (id : FlowIdentity)
      (token : Token) (result : CallbackResult)
      → identify j r net p saved id token ≡ ok result
      → Identified r net p saved id token result
  unfolding identify result_of
  identify-Identified r net p saved id token result h =
      let (t, h1) = fail_if-ok (token.id_token == []) (id_token_validation_failed absent) _ h in
      let (c, valid, h2) =
        >>=-eq-ok
          (lift_problem (
            validate_id_token j r net.token_time net.key_sets token.id_token saved.nonce p.jwks_uri
              p.id_token_signing_alg_values_supported id))
          _ h1 in
      let (info, got, h3) =
        >>=-eq-ok (if is_fapi r.profile then ok none else user_info j r net p saved id token c) _
          h2 in
      let same : result_of j net id token c info ≡ result = cc in
      record {
        claims = c;
        validated = lift_problem-eq-ok _ valid;
        accepted = validated-IsAccepted r net p saved id token c (lift_problem-eq-ok _ valid);
        subject_is = sym (ap (λ x. x.subject) same);
        cnf_is = sym (ap (λ x. x.cnf) same);
        issuer_is = sym (ap (λ x. x.issuer) same);
        token_is = sym (ap (λ x. x.token) same);
      }

  branch :
      (b : Bool) (x : CallbackResult) (m : Except RpError CallbackResult) {y : CallbackResult}
      → (if not b then ok x else m) ≡ ok y
      → ((b ≡ false) × (x ≡ y)) ⊎ ((b ≡ true) × (m ≡ ok y))
  branch true x m h = inr (refl, h)
  branch false x m h = let same : x ≡ _ = cc in inl (refl, same)

  -- A result comes with the token of the exchange, and where the flow asks for `openid` with the
  -- claims of its ID token.
  pub complete-ok :
      (r : Rp) (net : Network) (p : Provider) (code : Text) (saved : CallbackCorrelation)
      (id : FlowIdentity) (result : CallbackResult)
      → complete j r net p code saved id ≡ ok result
      → (token : Token) × (net.exchange r
            (token_endpoint r p)
            code
            saved.code_verifier
            saved.resources
            id
          ≡ ok token)
        × (((uses_openid r ≡ false) × (result.issuer ≡ id.issuer))
            ⊎ ((uses_openid r ≡ true) × Identified r net p saved id token result))
  unfolding complete
  complete-ok r net p code saved id result h =
      let (t, h1) = fail_if-ok (token_endpoint r p == []) token_exchange_failed _ h in
      let (token, got, h2) =
        >>=-eq-ok (net.exchange r (token_endpoint r p) code saved.code_verifier saved.resources id)
          _ h1 in
      let (u, h3) = fail_if-ok (token.access_token == []) user_info_validation_failed _ h2 in
      (token, got, kind token (branch _ (unidentified id token) _ h3))
    where
      kind :
          (token : Token)
          → (((uses_openid r ≡ false) × (unidentified id token ≡ result))
              ⊎ ((uses_openid r ≡ true) × (identify j r net p saved id token ≡ ok result)))
          → (((uses_openid r ≡ false) × (result.issuer ≡ id.issuer))
              ⊎ ((uses_openid r ≡ true) × Identified r net p saved id token result))
      kind token (inl (off, same)) =
          inl (off, sym (ap (λ x. x.issuer) same) ∙ unfold unidentified in refl)
      kind token (inr (on, h)) = inr (on, identify-Identified r net p saved id token result h)

  -- What follows the negotiation, by its outcome.
  abbrev after :
      Network
      → Response
      → CallbackCorrelation
      → Text
      → Rp × Except RpError Provider
      → Rp × Except RpError CallbackResult
  after net resp saved issuer (a, err e) = (a, err e)
  after net resp saved issuer (a, ok p) =
      (a, complete j a net p resp.code saved (identity a saved issuer))

  with_provider :
      (r' : Rp) (net : Network) (resp : Response) (saved : CallbackCorrelation)
      (result : CallbackResult) (issuer : Text) (x : Rp × Except RpError Provider)
      → after net resp saved issuer x ≡ (r', ok result)
      → (p : Provider) × (x ≡ (r', ok p))
        × (complete j r' net p resp.code saved (identity r' saved issuer) ≡ ok result)
  with_provider r' net resp saved result issuer (a, err e) h = absurd (ground arith)
  with_provider r' net resp saved result issuer (a, ok p) h =
      let same : a ≡ r' = ap (λ y. y.0) h in
      let moved : ◌≡◌ {A = Rp × Except RpError Provider} (a, ok p) (r', ok p) =
        ap (λ b. (b, ok p)) same in
      (
        p,
        moved,
        subst (λ b. complete j b net p resp.code saved (identity b saved issuer) ≡ ok result) same
            (ap (λ y. y.1) h),
      )

  pub with_correlation-ok :
      (r r' : Rp) (net : Network) (params : CallbackParams) (resp : Response)
      (saved : CallbackCorrelation) (result : CallbackResult)
      → with_correlation j r net params resp saved ≡ (r', ok result)
      → (issuer : Text) × (p : Provider) × (check_response j r net params resp saved ≡ ok issuer)
        × (provider_for_callback r net issuer ≡ (r', ok p))
        × (complete j r' net p resp.code saved (identity r' saved issuer) ≡ ok result)
  unfolding with_correlation
  with_correlation-ok r r' net params resp saved result h =
      elim (Except-cases (check_response j r net params resp saved)) [
        | inr (e, q) ↦ let h' = rw (q, with_correlation) at h in absurd (ground arith)
        | inl (issuer, q) ↦
            let h' = rw (q, with_correlation) at h in
            let (p, found, done) =
              with_provider r' net resp saved result issuer (provider_for_callback r net issuer)
                h' in
            (issuer, p, q, found, done)
      ]
