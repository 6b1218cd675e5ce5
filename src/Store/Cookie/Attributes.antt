-- ===== src/Store/Cookie/Attributes.antt =====
-- rp/store/cookie/store.go: what `New` makes sure of, whatever its options.
use mathlib.Core.Path.{subst}
use lanyard.Base.{
  ◌≤◌, ◌≡◌, refl, ◌≢◌, ◌⊎◌, inl, inr, Bool, true, false, not, ◌&&◌, List, [], Text, codes, ◌==◌,
  eq_iff, eqb, arith, ok, fail_if-ok, fail_if-ok_last, >>=-eq-ok, has_prefix,
}
use lanyard.Store.Cookie.Session.{Store, CookieOptions, ttl_to_max_age}
use lanyard.Store.Cookie.Operations.{CookieOption, initial, apply_options, validate_attributes, new}

-- What the browser's prefixes ask of a cookie.
pub record Prefixed (name : Text) (o : CookieOptions) : Type 0 where
  pub host :
      (has_prefix name (codes "__Host-") ≡ false)
      ⊎ ((o.secure ≡ true) × (o.path ≡ codes "/") × (o.domain ≡ []))
  pub secure : (has_prefix name (codes "__Secure-") ≡ false) ⊎ (o.secure ≡ true)

split_host :
    (h sec : Bool) (path dom : Text)
    → (h && not sec) ≡ false
    → (h && not (path == codes "/")) ≡ false
    → (h && not (dom == [])) ≡ false
    → (h ≡ false) ⊎ ((sec ≡ true) × (path ≡ codes "/") × (dom ≡ []))
split_host false sec path dom a b c = inl refl
split_host true sec path dom a b c =
    inr (ground arith, ground (arith, eq_iff path (codes "/")), ground (arith, eq_iff dom []))

split_secure : (p sec : Bool) → (p && not sec) ≡ false → (p ≡ false) ⊎ (sec ≡ true)
split_secure false sec a = inl refl
split_secure true sec a = inr (ground arith)

validate_attributes-Prefixed :
    (name : Text) (o : CookieOptions) → validate_attributes name o ≡ ok tt → Prefixed name o
unfolding validate_attributes
validate_attributes-Prefixed name o h =
    let (a, h1) = fail_if-ok (has_prefix name (codes "__Host-") && not o.secure) _ _ h in
    let (b, h2) =
      fail_if-ok (has_prefix name (codes "__Host-") && not (o.path == codes "/")) _ _ h1 in
    let (c, h3) = fail_if-ok (has_prefix name (codes "__Host-") && not (o.domain == [])) _ _ h2 in
    let d = fail_if-ok_last (has_prefix name (codes "__Secure-") && not o.secure) _ h3 in
    record {
      host = split_host (has_prefix name (codes "__Host-")) o.secure o.path o.domain a b c;
      secure = split_secure (has_prefix name (codes "__Secure-")) o.secure d;
    }

-- Whatever the options, a store that `New` returns has a name and a lifetime, its cookies live as long
-- as its states, and a name with a prefix comes with the attributes that the browser asks for.
pub new-Prefixed :
    (auth_key : Text) (options : List CookieOption) (s : Store)
    → new auth_key options ≡ ok s
    → (auth_key ≢ [])
      × (s.session_name ≢ [])
      × (s.payload_key ≢ [])
      × (1 ≤ s.ttl)
      × (s.cookie_options.max_age ≡ ttl_to_max_age s.ttl)
      × Prefixed s.session_name s.cookie_options
unfolding new
new-Prefixed auth_key options s h =
    let s0 = apply_options initial options in
    let o = record s0.cookie_options { max_age = ttl_to_max_age s0.ttl } in
    let (a, h1) = fail_if-ok (auth_key == []) _ _ h in
    let (b, h2) = fail_if-ok (s0.session_name == []) _ _ h1 in
    let (c, h3) = fail_if-ok (s0.payload_key == []) _ _ h2 in
    let (d, h4) = fail_if-ok (eqb s0.ttl 0) _ _ h3 in
    let (u, valid, h5) = >>=-eq-ok (validate_attributes s0.session_name o) _ h4 in
    let same : record s0 { cookie_options = o } ≡ s = ground arith in
    subst
      (λ (x : Store).
        (auth_key ≢ [])
        × (x.session_name ≢ [])
        × (x.payload_key ≢ [])
        × (1 ≤ x.ttl)
        × (x.cookie_options.max_age ≡ ttl_to_max_age x.ttl)
        × Prefixed x.session_name x.cookie_options)
      same
      (
        ground (arith, eq_iff auth_key []),
        ground (arith, eq_iff s0.session_name []),
        ground (arith, eq_iff s0.payload_key []),
        ground arith,
        refl,
        validate_attributes-Prefixed s0.session_name o valid,
      )
