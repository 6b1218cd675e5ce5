-- ===== src/Rp/AuthMethod/Credentials.antt =====
-- rp/client_config.go: a selected method can be used with the credentials that are configured.
use mathlib.Core.Path.{subst}
use lanyard.Base.{
  ◌≡◌, refl, ◌∙◌, ◌≢◌, ◌⊎◌, inl, inr, Bool, true, false, fail_if, ap, not, ◌||◌, none, List, [],
  ◌∷◌, Text, ◌==◌, eq_iff, trim_space, trim_left, trim_right, to_lower, ok, err, ◌>>◌, >>=-eq-ok,
  arith, Bool-cases, Except-cases,
}
use lanyard.Rp.{Rp, auth_method_not_supported, invalid_configuration}
use lanyard.Rp.AuthMethod.{
  none_method, basic, post, client_secret_jwt, private_key_jwt, tls, self_signed_tls, normalize,
  method_supported, has_key, has_certificate, has_secret, validate_resolved, preferred, resolve,
  select_auth_method,
}

-- A method and the credentials that it needs.
pub data Usable (r : Rp) (m : Text) : Type 0 where
  by_secret :
      (m ≡ basic) ⊎ ((m ≡ post) ⊎ (m ≡ client_secret_jwt)) → has_secret r ≡ true → Usable r m
  by_key : m ≡ private_key_jwt → has_key r ≡ true → Usable r m
  by_certificate : (m ≡ tls) ⊎ (m ≡ self_signed_tls) → has_certificate r ≡ true → Usable r m
  by_nothing : m ≡ none_method → Usable r m

either : (m a b : Text) → (m == a || m == b) ≡ true → (m ≡ a) ⊎ (m ≡ b)
either m a b h = ground (arith, eq_iff m a, eq_iff m b)

passed : (b : Bool) → fail_if (not b) invalid_configuration ≡ ok tt → b ≡ true
passed true h = refl
passed false h = cc

validate_resolved-Usable : (r : Rp) (m : Text) → validate_resolved r m ≡ ok tt → Usable r m
unfolding validate_resolved
validate_resolved-Usable r m h = elim (Bool-cases (m == basic || m == post)) [
  | inl a ↦ by_secret (from_secret a) (passed _ (rw a at h))
  | inr a ↦ elim (Bool-cases (m == private_key_jwt)) [
    | inl b ↦ by_key ((eq_iff m private_key_jwt).0 b) (passed _ (rw (a, b) at h))
    | inr b ↦ elim (Bool-cases (m == tls || m == self_signed_tls)) [
      | inl c ↦ by_certificate (either m tls self_signed_tls c) (passed _ (rw (a, b, c) at h))
      | inr c ↦ elim (Bool-cases (m == none_method)) [
        | inl d ↦ by_nothing ((eq_iff m none_method).0 d)
        | inr d ↦ elim (Bool-cases (m == client_secret_jwt)) [
          | inl e ↦
              by_secret (inr (inr ((eq_iff m client_secret_jwt).0 e)))
                (passed _ (rw (a, b, c, d, e) at h))
          | inr e ↦ let h' : err invalid_configuration ≡ ok tt = rw (a, b, c, d, e) at h in cc
        ]
      ]
    ]
  ]
]
  where
    from_secret :
        (m == basic || m == post) ≡ true → (m ≡ basic) ⊎ ((m ≡ post) ⊎ (m ≡ client_secret_jwt))
    from_secret a = elim (either m basic post a) [ inl b ↦ inl b | inr c ↦ inr (inl c) ]

-- The method that is selected has what the code asks for it: a secret that is not blank, a key provider
-- for private_key_jwt, which need not have a private key, a certificate, or nothing for `none`.
pub select_auth_method-Usable :
    (r : Rp) (supported : List Text) (m : Text) (fallback : Bool)
    → select_auth_method r supported ≡ ok (m, fallback)
    → Usable r m
unfolding select_auth_method
select_auth_method-Usable r supported m fallback h =
    let (choice, chosen, h1) = >>=-eq-ok (resolve r (normalize supported)) _ h in
    let (u, valid, h2) = >>=-eq-ok (validate_resolved r choice.0) (λ _. ok choice) h1 in
    let same : choice ≡ (m, fallback) = cc in
    subst (Usable r) (ap (λ p. p.0) same) (validate_resolved-Usable r choice.0 valid)

resolve_explicit :
    (r : Rp) (ms : List Text) (m : Text) (fallback : Bool)
    → r.auth_method ≢ []
    → resolve r ms ≡ ok (m, fallback)
    → (m ≡ r.auth_method)
      × (fallback ≡ false)
      × ((ms ≡ []) ⊎ (method_supported r.auth_method ms ≡ true))
unfolding resolve
resolve_explicit r [] m fallback set h = ground (arith, eq_iff r.auth_method [])
resolve_explicit r (x ∷ ms) m fallback set h = ground (arith, eq_iff r.auth_method [])

none_supported : (ms : List Text) → method_supported none_method ms ≡ true
unfolding method_supported trim_space trim_left trim_right to_lower ◌==◌
none_supported ms = ground arith

-- With an advertised list, a method that the client configures is taken or refused as it stands, and
-- none is tried in its place; without one it is taken.
pub select_explicit :
    (r : Rp) (supported : List Text) (m : Text) (fallback : Bool)
    → r.auth_method ≢ []
    → select_auth_method r supported ≡ ok (m, fallback)
    → (m ≡ r.auth_method)
      × (fallback ≡ false)
      × ((normalize supported ≡ []) ⊎ (method_supported r.auth_method (normalize supported) ≡ true))
unfolding select_auth_method
select_explicit r supported m fallback set h =
    let (choice, chosen, h1) = >>=-eq-ok (resolve r (normalize supported)) _ h in
    let (u, valid, h2) = >>=-eq-ok (validate_resolved r choice.0) (λ _. ok choice) h1 in
    let same : choice ≡ (m, fallback) = cc in
    resolve_explicit r (normalize supported) m fallback set
      (subst (λ c. resolve r (normalize supported) ≡ ok c) same chosen)

preferred-ne-none : (r : Rp) (ms : List Text) → preferred r ms ≢ none
unfolding preferred
preferred-ne-none r ms = ground (arith, none_supported ms)

resolve_unset :
    (r : Rp) (ms : List Text) → r.auth_method ≡ [] → resolve r ms ≢ err auth_method_not_supported
unfolding resolve
resolve_unset r ms unset = ground (arith, eq_iff r.auth_method [], preferred-ne-none r ms)

validate_resolved_error :
    (r : Rp) (m : Text) → validate_resolved r m ≢ err auth_method_not_supported
unfolding validate_resolved
validate_resolved_error r m = ground arith

-- Without a configured method, an advertised list never leads to the error that no method is
-- supported: the last case of the preference takes `none` whether or not it is in the list.
pub preferred_total :
    (r : Rp) (supported : List Text)
    → r.auth_method ≡ []
    → select_auth_method r supported ≢ err auth_method_not_supported
unfolding select_auth_method
preferred_total r supported unset h = elim (Except-cases (resolve r (normalize supported))) [
  | inl (choice, q) ↦ valid choice (rw (q, select_auth_method) at h)
  | inr (e, q) ↦
      let h' : err e ≡ err auth_method_not_supported = rw (q, select_auth_method) at h in
      resolve_unset r (normalize supported) unset (q ∙ h')
]
  where
    valid :
        (choice : Text × Bool)
        → (validate_resolved r choice.0 >> ok choice) ≡ err auth_method_not_supported
        → ⊥
    valid choice v = ground (arith, validate_resolved_error r choice.0)
