-- ===== src/Rp/Construct/Origin.antt =====
-- rp/rp.go: the steps of New, and what it promises of the relying party that it returns.
use mathlib.Core.Path.{subst}
use lanyard.Base.{
  ◌≡◌, refl, inl, inr, Bool, true, false, ◌&&◌, Option, some, List, Text, Except, ok, err, ◌>>◌,
  >>=-eq-ok, or_fail-ok, Except-cases, arith, if◌then◌else◌,
}
use lanyard.Metadata.{Provider, AuthorizationServer}
use lanyard.Metadata.Validate.{Url, Violation, validate_all, endpoints}
use lanyard.Rp.{Rp, RpError, is_fapi, invalid_configuration}
use lanyard.Rp.AuthMethod.{apply_supported, select_auth_method}
use lanyard.Rp.AuthMethod.Credentials.{
  Usable, by_secret, by_key, by_certificate, by_nothing, select_auth_method-Usable,
}
use lanyard.Rp.Options.{RpOption, apply_options}
use lanyard.Rp.Merge.{merge_provider, fill_missing}
use lanyard.Rp.Defaults.{
  configured, is_complete, effective_discovery_mode, new_rp, apply_profile_defaults, first_error,
}
use lanyard.Rp.Construct.{
  new, validate, resolve_provider, resolve_auth_method, check, is_disabled, discover_for_mode,
}
use lanyard.Rp.Construct.Fapi.{FapiReady, Checked, check-Checked, Checked-FapiReady}

pub resolve_auth_method-ok :
    (p r : Rp)
    → resolve_auth_method p ≡ ok r
    → (m : Text) × (fallback : Bool) × (select_auth_method p
          p.provider.token_endpoint_auth_methods_supported
        ≡ ok (m, fallback))
      × (record p { resolved_auth_method = m; allow_method_fallback = fallback } ≡ r)
unfolding resolve_auth_method apply_supported
resolve_auth_method-ok p r h =
    elim (Except-cases (select_auth_method p p.provider.token_endpoint_auth_methods_supported)) [
      | inl ((m, fallback), q) ↦
          (m, fallback, q, unwrap (rw (q, resolve_auth_method, apply_supported) at h))
      | inr (e, q) ↦
          let h' = rw (q, resolve_auth_method, apply_supported) at h in absurd (ground arith)
    ]
  where
    unwrap : {s : Rp} → ◌≡◌ {A = Except RpError Rp} (ok s) (ok r) → s ≡ r
    unwrap h = cc

resolve_auth_method-Usable :
    (p r : Rp) → resolve_auth_method p ≡ ok r → Usable r r.resolved_auth_method
resolve_auth_method-Usable p r h =
    let (m, fallback, chosen, same) = resolve_auth_method-ok p r h in
    subst (λ x. Usable x x.resolved_auth_method) same
      (kept m fallback (
        select_auth_method-Usable p p.provider.token_endpoint_auth_methods_supported m fallback
          chosen))
  where
    kept :
        (m : Text) (fallback : Bool)
        → Usable p m
        → Usable (record p { resolved_auth_method = m; allow_method_fallback = fallback }) m
    kept m fallback (by_secret k s) = by_secret k s
    kept m fallback (by_key k s) = by_key k s
    kept m fallback (by_certificate k s) = by_certificate k s
    kept m fallback (by_nothing k) = by_nothing k

module _ (parse : Text → Option Url) (is_object : Text → Bool) (discover : Text → Option Provider)
    (discover_server : Text → Option AuthorizationServer) where
  abbrev pub start : Text → List RpOption → Rp
  start issuer opts = apply_profile_defaults (apply_options parse is_object opts (new_rp issuer))

  -- Where the provider of a relying party comes from.
  pub data Provenance (r : Rp) : Provider → Type 0 where
    preloaded :
        validate_all parse (endpoints r.configured_provider) ≡ ok tt
        → Provenance r r.configured_provider
    discovered :
        (found : Provider)
        → discover_for_mode parse is_object discover discover_server r (effective_discovery_mode r)
          ≡ some found
        → (r.configured_provider_set && is_complete r.configured_provider) ≡ false
        → Provenance r (
            if r.configured_provider_set
            then merge_provider fill_missing r.configured_provider found
            else found)

  abbrev pub Provided : Rp → Rp → Type 0
  Provided r p =
      (q : Provider) × Provenance r q × (record r { provider = q; provider_set = true } ≡ p)

  taken :
      (r p : Rp) (checked : Except Violation (Unit {0}))
      → validate_all parse (endpoints r.configured_provider) ≡ checked
      → (configured checked
          >> ok (record r { provider = r.configured_provider; provider_set = true }))
        ≡ ok p
      → Provided r p
  taken r p (ok u) q h = (r.configured_provider, preloaded q, cc)
  taken r p (err e) q h = cc

  either_branch :
      {A B : Type 0} (b : Bool) (x y : A) {z : A}
      → (if b then x else y) ≡ z
      → (x ≡ z → B)
      → (b ≡ false → y ≡ z → B)
      → B
  either_branch true x y h f g = f h
  either_branch false x y h f g = g refl h

  -- Resolution changes the provider only.
  pub resolve_provider-ok :
      (r p : Rp) → resolve_provider parse is_object discover discover_server r ≡ ok p → Provided r p
  unfolding resolve_provider
  resolve_provider-ok r p h =
      either_branch (r.configured_provider_set && is_complete r.configured_provider) _ _ h
        (taken r p _ refl)
        (λ partial h1.
          either_branch (is_disabled (effective_discovery_mode r)) _ _ h1
            (λ h2.
              either_branch r.configured_provider_set _ _ h2 (taken r p _ refl) (λ unset x. cc))
            (λ enabled h2.
              let (found, q, h3) =
                or_fail-ok
                  (discover_for_mode parse is_object discover discover_server r
                    (effective_discovery_mode r))
                  invalid_configuration _ h2 in
              (_, discovered found q partial, cc)))

  -- The values between the steps of New.
  pub record Built (issuer : Text) (opts : List RpOption) (r : Rp) : Type 0 where
    pub provided : Rp
    pub validated : validate parse is_object discover discover_server (start issuer opts) ≡ ok tt
    pub resolved :
        resolve_provider parse is_object discover discover_server (start issuer opts) ≡ ok provided
    pub method : resolve_auth_method provided ≡ ok r
    pub checked : Checked r

  pub new-Built :
      (issuer : Text) (opts : List RpOption) (r : Rp)
      → new parse is_object discover discover_server issuer opts ≡ ok r
      → Built issuer opts r
  unfolding new
  new-Built issuer opts r h =
      let base = start issuer opts in
      let (a, first, h1) = >>=-eq-ok (first_error base.option_errors) _ h in
      let (b, valid, h2) =
        >>=-eq-ok (validate parse is_object discover discover_server base) _ h1 in
      let (p, found, h3) =
        >>=-eq-ok (resolve_provider parse is_object discover discover_server base) _ h2 in
      let (s, chosen, h4) = >>=-eq-ok (resolve_auth_method p) _ h3 in
      let (c, fine, h5) = >>=-eq-ok (check s) (λ _. ok s) h4 in
      let same : s ≡ r = cc in
      record {
        provided = p;
        validated = valid;
        resolved = found;
        method = subst (λ x. resolve_auth_method p ≡ ok x) same chosen;
        checked = subst Checked same (check-Checked s fine);
      }

  -- A relying party with a FAPI profile that New returns authenticates with private_key_jwt or mutual TLS;
  -- it pushes its authorization requests to an endpoint that the provider has, or signs them where its
  -- profile is not FAPI 2.0; its tokens are bound by DPoP, with a key provider and not under FAPI 1.0
  -- advanced, or by a certificate that it has; and a key provider that it has signs with PS256 or ES256,
  -- and its private key is not a short RSA key. With private_key_jwt it has a key provider, and with
  -- mutual TLS a certificate. That the key provider has a private key is not known: New does not ask.
  pub new-FapiReady :
      (issuer : Text) (opts : List RpOption) (r : Rp)
      → new parse is_object discover discover_server issuer opts ≡ ok r
      → is_fapi r.profile ≡ true
      → FapiReady r × Usable r r.resolved_auth_method
  new-FapiReady issuer opts r h fapi =
      let b = new-Built issuer opts r h in
      (Checked-FapiReady r b.checked fapi, resolve_auth_method-Usable b.provided r b.method)
