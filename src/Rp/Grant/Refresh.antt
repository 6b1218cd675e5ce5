-- ===== src/Rp/Grant/Refresh.antt =====
-- rp/refresh_rotation.go: the refresh token that a RefreshTokenSource holds.
use lanyard.Base.{
  ◌≡◌, sym, ap, ◌∙◌, ◌≢◌, ◌⊎◌, inl, inr, Bool, Text, [], ◌==◌, eq_iff, Except, ok, err, arith,
  Bool-cases, Except-cases,
}
use lanyard.Rp.Callback.{Token}
use lanyard.Rp.Grant.{RefreshServer, RefreshError, Source, refresh_token, refresh}

-- `new` is the token that is held after a refresh whose answer has `rotated`, where `old` was held.
abbrev pub Rotates : Text → Text → Text → Type 0
Rotates old rotated new = ((rotated ≢ []) × (new ≡ rotated)) ⊎ ((rotated ≡ []) × (new ≡ old))

module _ (server : RefreshServer) where
  open server use {W}

  -- A refresh that fails in RefreshToken returns that error and keeps the refresh token. One that
  -- succeeds there holds the new refresh token where the server rotated it, that is, its token has one
  -- that is not empty, and else the one it had; it returns that token with the refresh token that is
  -- held. Either way the source keeps the state of the network and of its RP that RefreshToken left, and
  -- its refresh token is not empty, if it was not before.
  pub refresh_lem :
      (s s' : Source server) (overridden : Bool) (answer : Except RefreshError Token)
      → refresh server s overridden ≡ (s', answer)
      → s.current ≢ []
      → (s'.current ≢ [])
        × (s'.w ≡ (refresh_token server s.w s.rp overridden s.current).0)
        × (s'.rp ≡ (refresh_token server s.w s.rp overridden s.current).1)
        × (((e : RefreshError) × ((refresh_token server s.w s.rp overridden s.current).2 ≡ err e)
              × (answer ≡ err e)
              × (s'.current ≡ s.current))
            ⊎ ((t : Token) × ((refresh_token server s.w s.rp overridden s.current).2 ≡ ok t)
                × (answer ≡ ok (record t { refresh_token = s'.current }))
                × Rotates s.current t.refresh_token s'.current))
  unfolding refresh
  refresh_lem s s' overridden answer h nonempty =
      elim (Except-cases (refresh_token server s.w s.rp overridden s.current).2) [
        | inr (e, q) ↦
            let h' = rw (q, refresh) at h in
            let kept : s.current ≡ s'.current = ap (λ x. x.0.current) h' in
            (
              λ empty. nonempty (kept ∙ empty),
              sym (ap (λ x. x.0.w) h'),
              sym (ap (λ x. x.0.rp) h'),
              inl (e, q, sym (ap (λ x. x.1) h'), sym kept),
            )
        | inl (t, q) ↦
            let h' = rw (q, refresh) at h in
            elim (Bool-cases (t.refresh_token == [])) [
              | inl none_new ↦
                  let h'' = rw none_new at h' in
                  let kept : s.current ≡ s'.current = ap (λ x. x.0.current) h'' in
                  (
                    λ empty. nonempty (kept ∙ empty),
                    sym (ap (λ x. x.0.w) h''),
                    sym (ap (λ x. x.0.rp) h''),
                    inr (
                      t,
                      q,
                      sym (ap (λ x. x.1) h'') ∙ ap (λ c. ok (record t { refresh_token = c })) kept,
                      inr ((eq_iff t.refresh_token []).0 none_new, sym kept),
                    ),
                  )
              | inr rotated ↦
                  let h'' = rw rotated at h' in
                  let new : t.refresh_token ≡ s'.current = ap (λ x. x.0.current) h'' in
                  let full : t.refresh_token ≢ [] = ground (arith, eq_iff t.refresh_token []) in
                  (
                    λ empty. full (new ∙ empty),
                    sym (ap (λ x. x.0.w) h''),
                    sym (ap (λ x. x.0.rp) h''),
                    inr (
                      t,
                      q,
                      sym (ap (λ x. x.1) h'') ∙ ap (λ c. ok (record t { refresh_token = c })) new,
                      inl (full, sym new),
                    ),
                  )
            ]
      ]
