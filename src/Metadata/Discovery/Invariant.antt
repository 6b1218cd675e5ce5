-- ===== src/Metadata/Discovery/Invariant.antt =====
-- metadata/discovery.go: every entry of the cache is valid for the issuer under whose key it stands, and
-- refresh and discovery keep it so.
use lanyard.Base.{
  ◌≡◌, refl, inl, inr, Bool, true, false, Option, none, some, List, [], ◌∷◌, ◌++◌, Text, ◌==◌,
  eq_of_==, ltb, Except, ok, err, >>=-eq-ok, Except-cases, Option-cases, Bool-cases, arith,
  if◌then◌else◌,
}
use mathlib.Core.Path.{subst}
use lanyard.Base.Maps.{Dict, lookup, insert, lookup-insert}
use lanyard.Http.{Time}
use lanyard.Metadata.Validate.{Url, Violation}
use lanyard.Metadata.Discovery.{
  CacheEntry, Kind, provider_kind, server_kind, same_kind, Client, Job, Response, FetchResult,
  RefreshOptions, Urls, DiscoveryError, lift_violation, fetch_metadata, prior_etag, entry_of,
  refreshed_entry, refresh_discovery, cached, document_of, discover, provider_options,
  server_options,
}

if-intro : {A : Type 0} (P : A → Type 0) (b : Bool) (x y : A) → P x → P y → P (if b then x else y)
if-intro P true x y p q = p
if-intro P false x y p q = q

module _ {D : Type 0} (opts : RefreshOptions D) where
  -- An entry of the kind, under the key of an issuer, is valid for that issuer.
  abbrev pub Sound : Bool → Text → CacheEntry → Type 0
  Sound tolerate key e =
      (issuer : Text)
      → e.kind ≡ opts.kind
      → key ≡ opts.prefix ++ issuer
      → opts.validate tolerate issuer (opts.document e) ≡ ok tt

  -- A job of the kind refreshes the entry of its issuer.
  abbrev pub Keyed : Job → Type 0
  Keyed job = job.existing.kind ≡ opts.kind → job.key ≡ opts.prefix ++ job.issuer

pub same_kind_sound : (a b : Kind) → same_kind a b ≡ true → a ≡ b
same_kind_sound provider_kind provider_kind h = refl
same_kind_sound server_kind server_kind h = refl
same_kind_sound provider_kind server_kind h = cc
same_kind_sound server_kind provider_kind h = cc

pub ++-cancel : (p a b : Text) → p ++ a ≡ p ++ b → a ≡ b
++-cancel [] a b h = h
++-cancel (c ∷ p) a b h = let h' : p ++ a ≡ p ++ b = cc in ++-cancel p a b h'

module _ (urls : Urls) where
  abbrev pub EntrySound : Bool → Text → CacheEntry → Type 0
  EntrySound tolerate key e =
      Sound (provider_options urls) tolerate key e × Sound (server_options urls) tolerate key e

  abbrev pub AllSound : Bool → Dict CacheEntry → Type 0
  AllSound tolerate cache =
      (key : Text) (e : CacheEntry) → lookup key cache ≡ some e → EntrySound tolerate key e

  abbrev pub JobSound : Bool → Job → Type 0
  JobSound tolerate job =
      EntrySound tolerate job.key job.existing
      × Keyed (provider_options urls) job
      × Keyed (server_options urls) job

  abbrev pub JobsSound : Bool → List Job → Type 0
  JobsSound tolerate [] = Unit
  JobsSound tolerate (job ∷ jobs) = JobSound tolerate job × JobsSound tolerate jobs

  pub record IsSound (c : Client) : Type 0 where
    pub entries : AllSound c.tolerate c.cache
    pub jobs : JobsSound c.tolerate c.jobs

  insert-AllSound :
      (tolerate : Bool) (k : Text) (e : CacheEntry) (m : Dict CacheEntry)
      → AllSound tolerate m
      → EntrySound tolerate k e
      → AllSound tolerate (insert k e m)
  insert-AllSound tolerate k e m old new j f found = elim (Bool-cases (k == j)) [
    | inl same ↦
        let q : some e ≡ some f = rw (lookup-insert k j e m, same) at found in
        let key : k ≡ j = eq_of_== k j same in
        let entry : e ≡ f = cc in
        subst (λ x. EntrySound tolerate x f) key (subst (EntrySound tolerate k) entry new)
    | inr other ↦ old j f (rw (lookup-insert k j e m, other) at found)
  ]

  -- What the two kinds of discovery share.
  pub record Law {D : Type 0} (opts : RefreshOptions D) : Type 0 where
    pub document-new_entry :
        (d : D) (etag : Text) (until at : Time) → opts.document (opts.new_entry d etag until at) ≡ d
    pub kind-new_entry :
        (d : D) (etag : Text) (until at : Time) → (opts.new_entry d etag until at).kind ≡ opts.kind
    pub same_kind-eq : (e : CacheEntry) → same_kind e.kind opts.kind ≡ true → e.kind ≡ opts.kind
    pub sound :
        (tolerate : Bool) (issuer : Text) (e : CacheEntry)
        → e.kind ≡ opts.kind
        → opts.validate tolerate issuer (opts.document e) ≡ ok tt
        → EntrySound tolerate (opts.prefix ++ issuer) e
    pub valid :
        (tolerate : Bool) (issuer : Text) (e : CacheEntry)
        → EntrySound tolerate (opts.prefix ++ issuer) e
        → e.kind ≡ opts.kind
        → opts.validate tolerate issuer (opts.document e) ≡ ok tt
    pub keyed :
        (issuer : Text) (e : CacheEntry)
        → e.kind ≡ opts.kind
        → Keyed
            (provider_options urls)
            (record { issuer = issuer; key = opts.prefix ++ issuer; existing = e })
          × Keyed
              (server_options urls)
              (record { issuer = issuer; key = opts.prefix ++ issuer; existing = e })

  module _ {D : Type 0} (opts : RefreshOptions D) (law : Law opts) where
    abbrev pub Valid : Bool → Text → CacheEntry → Type 0
    Valid tolerate issuer e =
        (e.kind ≡ opts.kind) × (opts.validate tolerate issuer (opts.document e) ≡ ok tt)

    abbrev pub Held : Bool → Text → Option CacheEntry → Type 0
    Held tolerate issuer existing =
        (old : CacheEntry)
        → existing ≡ some old
        → opts.validate tolerate issuer (opts.document old) ≡ ok tt

    new_entry-Valid :
        (tolerate : Bool) (issuer : Text) (d : D) (etag : Text) (until at : Time) (e : CacheEntry)
        → opts.validate tolerate issuer d ≡ ok tt
        → ◌≡◌ {A = Except DiscoveryError CacheEntry} (ok (opts.new_entry d etag until at)) (ok e)
        → Valid tolerate issuer e
    new_entry-Valid tolerate issuer d etag until at e v q =
        let same : opts.new_entry d etag until at ≡ e = cc in
        let inside : opts.validate tolerate issuer (opts.document (opts.new_entry d etag until at))
            ≡ ok tt =
          rw (law.document-new_entry d etag until at) v in
        subst (Valid tolerate issuer) same (law.kind-new_entry d etag until at, inside)

    lift_violation-ok : (r : Except Violation (Unit {0})) → lift_violation r ≡ ok tt → r ≡ ok tt
    lift_violation-ok (ok u) h = refl
    lift_violation-ok (err v) h = cc

    entry_of-Valid :
        (tolerate : Bool) (issuer : Text) (existing : Option CacheEntry) (result : FetchResult D)
        (e : CacheEntry)
        → Held tolerate issuer existing
        → entry_of opts tolerate issuer existing result ≡ ok e
        → Valid tolerate issuer e
    unfolding entry_of
    entry_of-Valid tolerate issuer none result e held h = elim (Option-cases result.metadata) [
      | inl q ↦ let h' = rw (q, entry_of) at h in absurd (ground arith)
      | inr (d, q) ↦
          let (u, passed, h') =
            >>=-eq-ok (lift_violation (opts.validate tolerate issuer d)) _
              (rw (q, entry_of) at h) in
          new_entry-Valid tolerate issuer d _ _ _ e (lift_violation-ok _ passed) h'
    ]
    entry_of-Valid tolerate issuer (some old) result e held h =
        elim (Option-cases result.metadata) [
          | inl q ↦
              new_entry-Valid tolerate issuer (opts.document old) _ _ _ e (held old refl)
                (rw (q, entry_of) at h)
          | inr (d, q) ↦
              let (u, passed, h') =
                >>=-eq-ok (lift_violation (opts.validate tolerate issuer d)) _
                  (rw (q, entry_of) at h) in
              new_entry-Valid tolerate issuer d _ _ _ e (lift_violation-ok _ passed) h'
        ]

    -- The entry that a refresh ends with is of the kind and valid, where the one that it refreshes is.
    refreshed_entry-Valid :
        (c : Client) (now : Time) (issuer : Text) (existing : Option CacheEntry)
        (server : Text → Text → Option (Response D)) (e : CacheEntry)
        → Held c.tolerate issuer existing
        → refreshed_entry opts c now issuer existing server ≡ ok e
        → Valid c.tolerate issuer e
    unfolding refreshed_entry
    refreshed_entry-Valid c now issuer existing server e held h =
        let (url, known, h1) = >>=-eq-ok (lift_violation (opts.well_known issuer)) _ h in
        let (result, got, h2) =
          >>=-eq-ok (fetch_metadata c.default_ttl now (server url (prior_etag existing))) _ h1 in
        entry_of-Valid c.tolerate issuer existing result e held h2

    abbrev pub Outcome : Client → Text → Client × Except DiscoveryError CacheEntry → Type 0
    Outcome c issuer o =
        IsSound o.0
        × (o.0.tolerate ≡ c.tolerate)
        × ((e : CacheEntry) → o.1 ≡ ok e → Valid c.tolerate issuer e)

    pub refresh_discovery-Outcome :
        (c : Client) (now : Time) (issuer : Text) (existing : Option CacheEntry)
        (server : Text → Text → Option (Response D))
        → IsSound c
        → Held c.tolerate issuer existing
        → Outcome c issuer
            (refresh_discovery opts c now issuer (opts.prefix ++ issuer) existing server)
    unfolding refresh_discovery
    refresh_discovery-Outcome c now issuer existing server s held =
        elim (Except-cases (refreshed_entry opts c now issuer existing server)) [
          | inr (x, q) ↦ rw (q, refresh_discovery) (s, refl, λ e h. absurd (ground arith))
          | inl (new, q) ↦
              let v = refreshed_entry-Valid c now issuer existing server new held q in
              let entry = law.sound c.tolerate issuer new v.0 v.1 in
              rw (q, refresh_discovery)
                (
                  record {
                    entries =
                        insert-AllSound c.tolerate (opts.prefix ++ issuer) new c.cache s.entries
                          entry;
                    jobs = s.jobs;
                  },
                  refl,
                  λ e h. let same : new ≡ e = cc in subst (Valid c.tolerate issuer) same v,
                )
        ]

    -- What the cache holds for an issuer.
    cached-Valid :
        (c : Client) (issuer : Text) (e : CacheEntry)
        → IsSound c
        → cached opts c (opts.prefix ++ issuer) ≡ some e
        → EntrySound c.tolerate (opts.prefix ++ issuer) e × Valid c.tolerate issuer e
    unfolding cached
    cached-Valid c issuer e s h = elim (Option-cases (lookup (opts.prefix ++ issuer) c.cache)) [
      | inl q ↦ let h' = rw (q, cached) at h in absurd (ground arith)
      | inr (f, q) ↦ elim (Bool-cases (same_kind f.kind opts.kind)) [
        | inr off ↦ let h' = rw (q, off, cached) at h in absurd (ground arith)
        | inl on ↦
            let h' : some f ≡ some e = rw (q, on, cached) at h in
            let same : f ≡ e = cc in
            let entry = s.entries (opts.prefix ++ issuer) f q in
            let kind = law.same_kind-eq f on in
            subst (λ x. EntrySound c.tolerate (opts.prefix ++ issuer) x × Valid c.tolerate issuer x)
              same (entry, (kind, law.valid c.tolerate issuer f entry kind))
      ]
    ]

    abbrev pub Answer : Client → Text → Client × Except DiscoveryError D → Type 0
    Answer c issuer o =
        IsSound o.0
        × (o.0.tolerate ≡ c.tolerate)
        × ((d : D) → o.1 ≡ ok d → opts.validate c.tolerate issuer d ≡ ok tt)

    document_of-Answer :
        (c : Client) (issuer : Text) (o : Client × Except DiscoveryError CacheEntry)
        → Outcome c issuer o
        → Answer c issuer (document_of opts o)
    document_of-Answer c issuer (d, err x) (s, t, v) = (s, t, λ e h. absurd (ground arith))
    document_of-Answer c issuer (d, ok e) (s, t, v) = (
      s,
      t,
      λ x h.
          let same : opts.document e ≡ x = cc in
          subst (λ y. opts.validate c.tolerate issuer y ≡ ok tt) same (v e refl).1,
    )

    pub discover-Answer :
        (check : Text → Except Violation Url) (c : Client) (now fetched : Time) (issuer : Text)
        (server : Text → Text → Option (Response D))
        → IsSound c
        → Answer c issuer (discover opts check c now fetched issuer server)
    unfolding discover
    discover-Answer check c now fetched issuer server s = elim (Except-cases (check issuer)) [
      | inr (v, q) ↦ rw (q, discover) (s, refl, λ e h. absurd (ground arith))
      | inl (u, q) ↦ elim (Option-cases (cached opts c (opts.prefix ++ issuer))) [
        | inl n ↦
            rw (q, n, discover)
              (document_of-Answer c issuer _ (
                refresh_discovery-Outcome c fetched issuer none server s
                  (λ old h. absurd (ground arith))))
        | inr (e, found) ↦
            let (entry, v) = cached-Valid c issuer e s found in
            let keys = law.keyed issuer e v.0 in
            rw (q, found, discover)
              (if-intro (Answer c issuer) c.fresh_discovery _ _
                (document_of-Answer c issuer _
                  (refresh_discovery-Outcome c fetched issuer (some e) server s (held e v)))
                (if-intro (Answer c issuer) (ltb now e.fresh_until) _ _ (s, refl, served e v)
                  (
                    record { entries = s.entries; jobs = ((entry, keys.0, keys.1), s.jobs) },
                    refl,
                    served e v,
                  )))
      ]
    ]
      where
        held : (e : CacheEntry) → Valid c.tolerate issuer e → Held c.tolerate issuer (some e)
        held e v old h =
            let same : e ≡ old = cc in
            subst (λ y. opts.validate c.tolerate issuer (opts.document y) ≡ ok tt) same v.1

        served :
            (e : CacheEntry)
            → Valid c.tolerate issuer e
            → (d : D) → ◌≡◌ {A = Except DiscoveryError D} (ok (opts.document e)) (ok d)
            → opts.validate c.tolerate issuer d ≡ ok tt
        served e v d h =
            let same : opts.document e ≡ d = cc in
            subst (λ y. opts.validate c.tolerate issuer y ≡ ok tt) same v.1
