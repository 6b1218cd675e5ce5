-- ===== src/Metadata/Validate/Endpoints.antt =====
-- metadata/validate.go: which endpoints pass.
use lanyard.Base.{
  ◌≡◌, refl, ◌≢◌, ◌⊎◌, inl, inr, ◌↔◌, Bool, true, false, not, ◌&&◌, ◌||◌, Option, some, List, [],
  ◌∷◌, Text, codes, ◌==◌, eq_iff, eq_of_==, all, is_empty, ok, arith, Option-cases, Bool-cases,
  Except-cases, >>=-eq-ok, fail_if-ok, fail_if-ok_last,
}
use lanyard.Metadata.{Provider}
use lanyard.Metadata.Validate.{
  Url, parse_https, is_secure, is_loopback, validate_https_url, validate_all, validate_provider,
  endpoints, issuer_matches,
}

module _ (parse : Text → Option Url) where
  -- A URL over TLS, or to the machine itself.
  pub record Secure (raw : Text) : Type 0 where
    pub url : Url
    pub parsed : parse raw ≡ some url
    pub is_tls :
        (url.scheme ≡ codes "https") ⊎ ((url.scheme ≡ codes "http") × (is_loopback url ≡ true))

  is_secure-Secure : (raw : Text) → is_secure parse raw ≡ true → Secure raw
  unfolding is_secure
  is_secure-Secure raw h = elim (Option-cases (parse raw)) [
    | inl q ↦ let h' = rw (q, is_secure) at h in absurd (ground arith)
    | inr (u, q) ↦
        let h' = rw (q, is_secure) at h in record { url = u; parsed = q; is_tls = kind _ _ _ h' }
  ]
    where
      kind :
          (s : Text) (t : Text) (b : Bool)
          → (s == codes "https" || s == t && b) ≡ true
          → (s ≡ codes "https") ⊎ ((s ≡ t) × (b ≡ true))
      kind s t b h = elim (Bool-cases (s == codes "https")) [
        | inl y ↦ inl (eq_of_== s (codes "https") y)
        | inr n ↦ inr (ground (arith, eq_iff s t), ground arith)
      ]

  Secure-is_secure : (raw : Text) → Secure raw → is_secure parse raw ≡ true
  unfolding is_secure
  Secure-is_secure raw s = rw (s.parsed, is_secure) (kind _ _ _ s.is_tls)
    where
      kind :
          (s : Text) (t : Text) (b : Bool)
          → (s ≡ codes "https") ⊎ ((s ≡ t) × (b ≡ true))
          → (s == codes "https" || s == t && b) ≡ true
      kind s t b (inl e) = ground (arith, eq_iff s (codes "https"))
      kind s t b (inr (e, y)) = ground (arith, eq_iff s t)

  parse_https-secure :
      (raw : Text) (u : Url) → parse_https parse raw ≡ ok u → is_secure parse raw ≡ true
  unfolding parse_https is_secure
  parse_https-secure raw u h = elim (Option-cases (parse raw)) [
    | inl q ↦ let h' = rw (q, parse_https) at h in absurd (ground arith)
    | inr (v, q) ↦
        let h' = rw (q, parse_https) at h in
        let tls : (v.scheme == codes "https") ≡ true = ground arith in
        rw (q, is_secure) (ground arith)
  ]

  -- A URL passes just where it is empty and may be, or is secure: neither a missing host nor a query
  -- or a fragment is held against a URL of the scheme `https`.
  pub validate_https_url_iff :
      (field raw : Text) (needed : Bool)
      → (validate_https_url parse field raw needed ≡ ok tt)
        ↔ (((raw ≡ []) × (needed ≡ false)) ⊎ ((raw ≢ []) × Secure raw))
  unfolding validate_https_url
  validate_https_url_iff field raw needed = (there, back)
    where
      there :
          validate_https_url parse field raw needed ≡ ok tt
          → ((raw ≡ []) × (needed ≡ false)) ⊎ ((raw ≢ []) × Secure raw)
      there h = elim (Bool-cases (raw == [])) [
        | inl y ↦
            let h' = rw (y, validate_https_url) at h in
            inl (eq_of_== raw [] y, (fail_if-ok_last needed _ h'))
        | inr n ↦
            let h' = rw (n, validate_https_url) at h in
            let full : raw ≢ [] = ground (arith, eq_iff raw []) in
            elim (Except-cases (parse_https parse raw)) [
              | inl (u, q) ↦ inr (full, is_secure-Secure raw (parse_https-secure raw u q))
              | inr (e, q) ↦
                  let h'' = rw q at h' in
                  let safe : is_secure parse raw ≡ true =
                    let b = fail_if-ok_last (not (is_secure parse raw)) _ h'' in ground arith in
                  inr (full, is_secure-Secure raw safe)
            ]
      ]

      back :
          ((raw ≡ []) × (needed ≡ false)) ⊎ ((raw ≢ []) × Secure raw)
          → validate_https_url parse field raw needed ≡ ok tt
      back (inl (e, n)) =
          let y : (raw == []) ≡ true = ground (arith, eq_iff raw []) in
          rw (y, validate_https_url) (rw n refl)
      back (inr (full, s)) =
          let n : (raw == []) ≡ false = ground (arith, eq_iff raw []) in
          let safe = Secure-is_secure raw s in
          elim (Except-cases (parse_https parse raw)) [
            | inl (u, q) ↦ rw (n, validate_https_url) (rw q refl)
            | inr (e, q) ↦ rw (n, validate_https_url) (rw (q, safe) refl)
          ]

  -- An endpoint is absent or secure.
  abbrev pub safe : Text × Text → Bool
  safe (field, endpoint) = endpoint == [] || is_secure parse endpoint

  safe_of :
      (field raw : Text)
      → validate_https_url parse field raw false ≡ ok tt
      → safe (field, raw) ≡ true
  safe_of field raw h = elim ((validate_https_url_iff field raw false).0 h) [
    | inl (e, n) ↦ ground (arith, eq_iff raw [])
    | inr (full, s) ↦ let t = Secure-is_secure raw s in ground (arith, eq_iff raw [])
  ]

  pub validate_all-safe :
      (es : List (Text × Text)) → validate_all parse es ≡ ok tt → all safe es ≡ true
  unfolding validate_all
  validate_all-safe [] h = refl
  validate_all-safe ((field, endpoint) ∷ rest) h =
      let (u, first, later) = >>=-eq-ok (validate_https_url parse field endpoint false) _ h in
      let here = safe_of field endpoint first in
      let there = validate_all-safe rest later in ground arith

  -- A provider document that passes names an issuer, the expected one up to a tolerated slash at the
  -- end; its lists of response types, subject types and signing algorithms are not empty; its
  -- authorization endpoint and its key set are secure URLs, and each of the twelve endpoints that the
  -- code checks is absent or secure. Not among these are the
  -- revocation and end-session endpoints and the aliases for mutual TLS of the registration and
  -- revocation endpoints.
  pub validate_provider_sound :
      (expected : Text) (p : Provider) (tolerate : Bool)
      → validate_provider parse expected p tolerate ≡ ok tt
      → (p.issuer ≢ [])
        × (issuer_matches expected p.issuer tolerate ≡ true)
        × (is_empty p.response_types_supported ≡ false)
        × (is_empty p.subject_types_supported ≡ false)
        × (is_empty p.id_token_signing_alg_values_supported ≡ false)
        × Secure p.authorization_endpoint
        × Secure p.jwks_uri
        × (all safe (endpoints p) ≡ true)
  unfolding validate_provider
  validate_provider_sound expected p tolerate h =
      let (t1, h1) = fail_if-ok (p.issuer == []) _ _ h in
      let (t2, h2) = fail_if-ok (not (issuer_matches expected p.issuer tolerate)) _ _ h1 in
      let (t3, h3) = fail_if-ok (p.authorization_endpoint == []) _ _ h2 in
      let (t4, h4) = fail_if-ok (p.jwks_uri == []) _ _ h3 in
      let (t5, h5) = fail_if-ok (is_empty p.response_types_supported) _ _ h4 in
      let (t6, h6) = fail_if-ok (is_empty p.subject_types_supported) _ _ h5 in
      let (t7, h7) = fail_if-ok (is_empty p.id_token_signing_alg_values_supported) _ _ h6 in
      let (u8, t8, h8) =
        >>=-eq-ok
          (validate_https_url parse (codes "authorization_endpoint") p.authorization_endpoint true)
          _ h7 in
      let (u9, t9, h9) =
        >>=-eq-ok (validate_https_url parse (codes "jwks_uri") p.jwks_uri true) _ h8 in
      let (u10, t10, h10) =
        >>=-eq-ok (validate_https_url parse (codes "token_endpoint") p.token_endpoint false) _ h9 in
      let (u11, t11, h11) =
        >>=-eq-ok (validate_https_url parse (codes "userinfo_endpoint") p.userinfo_endpoint false) _
          h10 in
      (
        ground (arith, eq_iff p.issuer []),
        ground arith,
        t5,
        t6,
        t7,
        present _ p.authorization_endpoint t8,
        present _ p.jwks_uri t9,
        validate_all-safe (endpoints p) h11,
      )
    where
      present : (field raw : Text) → validate_https_url parse field raw true ≡ ok tt → Secure raw
      present field raw h = elim ((validate_https_url_iff field raw true).0 h) [
        | inl (e, n) ↦ absurd (ground arith)
        | inr (full, s) ↦ s
      ]
