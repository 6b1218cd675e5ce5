-- ===== src/Rp/Construct/Responses.antt =====
-- rp/rp.go: the authorization responses that a relying party with a FAPI profile accepts.
use mathlib.Core.Path.{subst}
use lanyard.Base.{
  ◌≡◌, refl, sym, ap, ◌∙◌, ◌⊎◌, inl, inr, Bool, true, false, not, ◌&&◌, Option, none, some, List,
  [], ◌∷◌, Text, codes, ◌==◌, ok, Except-cases, arith, if◌then◌else◌, contains, to_lower, is_empty,
  trim_space, has_prefix,
}
use lanyard.Base.Int.{pos, negsuc}
use lanyard.Metadata.{Provider, AuthorizationServer}
use lanyard.Metadata.Validate.{Url}
use lanyard.Rp.{
  Rp, Profile, oidc, oauth2, fapi1_adv, fapi2_security, fapi2_message_signing, plain_fapi, is_fapi,
}
use lanyard.Rp.Jarm.{requires_jarm_response}
use lanyard.Rp.Options.{
  with_client_id, with_client_secret, with_redirect_uri, with_auth_method,
  with_user_info_token_transport, with_sender_constrain, with_claims, with_response_mode,
  with_response_type, with_request_method, with_scopes, with_resources, with_clock_skew,
  with_provider_metadata, with_client_key_provider, with_require_par,
  with_validate_authorization_response_issuer, with_allow_unsecured_id_tokens,
  with_authorization_details, with_request_uri_mode, with_profile, with_discovery_mode, RpOption,
  apply_option, apply_options, normalize_resources,
}
use lanyard.Rp.Defaults.{
  new_rp, apply_profile_defaults, profile_defaults, with_defaults, unless, is_plain_fapi,
  is_message_signing,
}
use lanyard.Rp.Construct.{new, plain_responses, skips_issuer}
use lanyard.Rp.Construct.Origin.{
  start, resolve_provider-ok, Built, new-Built, resolve_auth_method-ok,
}

-- A profile other than the first is one that an option set.
abbrev Marked : Rp → Type 0
Marked r = (r.profile ≡ oidc) ⊎ (r.profile_explicit ≡ true)

if-Marked : (b : Bool) (x y : Rp) → Marked x → Marked y → Marked (if b then x else y)
if-Marked true x y p q = p
if-Marked false x y p q = q

profile_defaults-same :
    (p : Profile) (r : Rp)
    → ((profile_defaults p r).profile ≡ r.profile)
      × ((profile_defaults p r).validate_response_issuer_set ≡ r.validate_response_issuer_set)
      × ((profile_defaults p r).response_mode_explicit ≡ r.response_mode_explicit)
profile_defaults-same oidc r = (refl, refl, refl)
profile_defaults-same oauth2 r = (refl, refl, refl)
profile_defaults-same fapi1_adv r = (refl, refl, refl)
profile_defaults-same fapi2_security r = (refl, refl, refl)
profile_defaults-same fapi2_message_signing r = (refl, refl, refl)
profile_defaults-same plain_fapi r = (refl, refl, refl)

-- The issuer of a response is checked unless an option says otherwise, and a response mode is set.
record Defaulted (r : Rp) : Type 0 where
  issuer :
      is_fapi r.profile ≡ true
      → (r.validate_response_issuer ≡ true) ⊎ (r.validate_response_issuer_set ≡ true)
  mode :
      is_message_signing r.profile ≡ true
      → (r.response_mode ≡ codes "jwt") ⊎ (r.response_mode_explicit ≡ true)

message_mode :
    (p : Profile) (r : Rp)
    → is_message_signing p ≡ true
    → ((profile_defaults p r).response_mode ≡ codes "jwt") ⊎ (r.response_mode_explicit ≡ true)
message_mode fapi2_message_signing r h = unless_explicit r.response_mode_explicit
  where
    unless_explicit :
        (b : Bool) → (unless b r.response_mode (codes "jwt") ≡ codes "jwt") ⊎ (b ≡ true)
    unless_explicit true = inr refl
    unless_explicit false = inl refl
message_mode oidc r h = cc
message_mode oauth2 r h = cc
message_mode fapi1_adv r h = cc
message_mode fapi2_security r h = cc
message_mode plain_fapi r h = cc

issuer_default :
    (f set v : Bool) → f ≡ true → ((if f && not set then true else v) ≡ true) ⊎ (set ≡ true)
issuer_default f true v h = inr refl
issuer_default f false v h = inl (ground arith)

with_defaults-Defaulted : (r : Rp) → Defaulted (with_defaults r)
with_defaults-Defaulted r =
    let (p, set, explicit) = profile_defaults-same r.profile r in
    record {
      issuer = λ h.
          elim (issuer_default (is_fapi r.profile) r.validate_response_issuer_set
            r.validate_response_issuer (sym (ap is_fapi p) ∙ h)) [
              | inl d ↦ inl d
              | inr s ↦ inr (set ∙ s)
            ];
      mode = λ h. elim (message_mode r.profile r (sym (ap is_message_signing p) ∙ h)) [
        | inl d ↦ inl d
        | inr e ↦ inr (explicit ∙ e)
      ];
    }

unmarked-Defaulted : (r : Rp) → r.profile ≡ oidc → Defaulted r
unmarked-Defaulted r o = record {
  issuer = λ h. let h' : is_fapi oidc ≡ true = sym (ap is_fapi o) ∙ h in cc;
  mode = λ h. let h' : is_message_signing oidc ≡ true = sym (ap is_message_signing o) ∙ h in cc;
}

apply_profile_defaults-Defaulted : (r : Rp) → Marked r → Defaulted (apply_profile_defaults r)
unfolding apply_profile_defaults
apply_profile_defaults-Defaulted r m = choose r.profile_explicit m
  where
    choose :
        (b : Bool)
        → (r.profile ≡ oidc) ⊎ (b ≡ true)
        → Defaulted (if not b then r else with_defaults r)
    choose true m = with_defaults-Defaulted r
    choose false (inl o) = unmarked-Defaulted r o
    choose false (inr h) = absurd (ground arith)

module _ (parse : Text → Option Url) (is_object : Text → Bool) where
  apply_option-Marked :
      (o : RpOption) (r : Rp) → Marked r → Marked (apply_option parse is_object o r)
  unfolding apply_option
  apply_option-Marked (with_client_id id) r m = m
  apply_option-Marked (with_client_secret s) r m = m
  apply_option-Marked (with_redirect_uri s) r m = m
  apply_option-Marked (with_auth_method s) r m = m
  apply_option-Marked (with_user_info_token_transport s) r m = m
  apply_option-Marked (with_sender_constrain s) r m = m
  apply_option-Marked (with_claims raw) r m =
      if-Marked (trim_space raw == []) _ _ m (if-Marked (not (is_object raw)) _ _ m m)
  apply_option-Marked (with_response_mode s) r m = m
  apply_option-Marked (with_response_type s) r m = m
  apply_option-Marked (with_request_method s) r m = m
  apply_option-Marked (with_scopes s) r m = if-Marked (is_empty s) _ _ m m
  apply_option-Marked (with_resources rs) r m =
      elim (Except-cases (normalize_resources parse is_object rs)) [
        | inl (x, q) ↦ rw (q, apply_option) m
        | inr (x, q) ↦ rw (q, apply_option) m
      ]
  apply_option-Marked (with_clock_skew (pos n)) r m = m
  apply_option-Marked (with_clock_skew (negsuc n)) r m = m
  apply_option-Marked (with_provider_metadata p) r m = m
  apply_option-Marked (with_client_key_provider none) r m = m
  apply_option-Marked (with_client_key_provider (some k)) r m = m
  apply_option-Marked (with_require_par b) r m = m
  apply_option-Marked (with_validate_authorization_response_issuer b) r m = m
  apply_option-Marked (with_allow_unsecured_id_tokens b) r m = m
  apply_option-Marked (with_authorization_details none) r m = m
  apply_option-Marked (with_authorization_details (some d)) r m = m
  apply_option-Marked (with_request_uri_mode h) r m = m
  apply_option-Marked (with_profile p) r m = inr refl
  apply_option-Marked (with_discovery_mode d) r m = m

  apply_options-Marked :
      (os : List RpOption) (r : Rp) → Marked r → Marked (apply_options parse is_object os r)
  unfolding apply_options
  apply_options-Marked [] r m = m
  apply_options-Marked (o ∷ os) r m =
      apply_options-Marked os (apply_option parse is_object o r) (apply_option-Marked o r m)

contains-to_lower_jwt : contains (to_lower (codes "jwt")) (codes "jwt") ≡ true
unfolding contains has_prefix to_lower
contains-to_lower_jwt = refl

module _ (parse : Text → Option Url) (is_object : Text → Bool) (discover : Text → Option Provider)
    (discover_server : Text → Option AuthorizationServer) where
  -- The changes of a relying party after its defaults.
  abbrev Later : Rp → Rp → Type 0
  Later r s =
      (s.profile ≡ r.profile)
      × (s.validate_response_issuer ≡ r.validate_response_issuer)
      × (s.validate_response_issuer_set ≡ r.validate_response_issuer_set)
      × (s.response_mode ≡ r.response_mode)
      × (s.response_mode_explicit ≡ r.response_mode_explicit)

  Built-Later :
      (issuer : Text) (opts : List RpOption) (r : Rp)
      → Built parse is_object discover discover_server issuer opts r
      → Later (start parse is_object discover discover_server issuer opts) r
  Built-Later issuer opts r b =
      let base = start parse is_object discover discover_server issuer opts in
      let (q, source, first) =
        resolve_provider-ok parse is_object discover discover_server base b.provided b.resolved in
      let (m, fallback, chosen, second) = resolve_auth_method-ok b.provided r b.method in
      subst (Later base) second (
        subst
          (λ p.
            Later base (record p { resolved_auth_method = m; allow_method_fallback = fallback }))
          first (refl, refl, refl, refl, refl))

  start-Defaulted :
      (issuer : Text) (opts : List RpOption)
      → Defaulted (start parse is_object discover discover_server issuer opts)
  unfolding new_rp
  start-Defaulted issuer opts =
      apply_profile_defaults-Defaulted (apply_options parse is_object opts (new_rp issuer))
        (apply_options-Marked parse is_object opts (new_rp issuer) (inl refl))

  -- With a FAPI profile but the plain one, whatever the options, the relying party that New returns
  -- compares the issuer of an authorization response.
  pub new_checks_issuer :
      (issuer : Text) (opts : List RpOption) (r : Rp)
      → new parse is_object discover discover_server issuer opts ≡ ok r
      → is_fapi r.profile ≡ true
      → is_plain_fapi r.profile ≡ false
      → r.validate_response_issuer ≡ true
  new_checks_issuer issuer opts r h fapi strict =
      let b = new-Built parse is_object discover discover_server issuer opts r h in
      let (p, v, set, mode, explicit) = Built-Later issuer opts r b in
      let refused : skips_issuer r ≡ false = b.checked.issuer_checked in
      elim ((start-Defaulted issuer opts).issuer (sym (ap is_fapi p) ∙ fapi)) [
        | inl d ↦ v ∙ d
        | inr s ↦ let s' = set ∙ s in ground arith
      ]

  -- With the profile FAPI 2.0 Message Signing it takes authorization responses as signed JWTs only.
  pub new-requires_jarm_response :
      (issuer : Text) (opts : List RpOption) (r : Rp)
      → new parse is_object discover discover_server issuer opts ≡ ok r
      → r.profile ≡ fapi2_message_signing
      → requires_jarm_response r ≡ true
  unfolding requires_jarm_response
  new-requires_jarm_response issuer opts r h signing =
      let b = new-Built parse is_object discover discover_server issuer opts r h in
      let (p, v, set, mode, explicit) = Built-Later issuer opts r b in
      let refused : plain_responses r ≡ false = b.checked.jwt_responses in
      let kind : is_message_signing r.profile ≡ true = rw signing refl in
      elim ((start-Defaulted issuer opts).mode (sym (ap is_message_signing p) ∙ kind)) [
        | inl d ↦ rw (mode ∙ d) contains-to_lower_jwt
        | inr s ↦ let s' = explicit ∙ s in ground arith
      ]
