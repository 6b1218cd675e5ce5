-- ===== src/Metadata/Discovery/Sound.antt =====
-- metadata/discovery.go: what a client hands out has been validated for the issuer that is asked for.
use lanyard.Base.{
  ◌≡◌, refl, sym, ◌∙◌, Bool, true, Option, some, List, [], ◌∷◌, ◌++◌, Text, all, ok, arith,
}
use mathlib.Core.Path.{subst}
use lanyard.Base.Maps.{lookup}
use lanyard.Http.{Time}
use lanyard.Metadata.{Provider, AuthorizationServer}
use lanyard.Metadata.Validate.{validate_issuer_url, validate_server, issuer_matches, endpoints}
use lanyard.Metadata.Validate.Endpoints.{safe, validate_provider_sound}
use lanyard.Metadata.Discovery.{
  provider_kind, server_kind, Client, Job, Response, RefreshOptions, Urls, refresh_discovery,
  provider_options, server_options, discover_provider, discover_server,
}
use lanyard.Metadata.Discovery.Steps.{
  finish, Step, called_provider, called_server, finished_provider, finished_server, shared,
  Reachable, fresh, after_step,
}
use lanyard.Metadata.Discovery.Invariant.{
  same_kind_sound, ++-cancel, EntrySound, JobSound, JobsSound, IsSound, Law,
  refresh_discovery-Outcome, discover-Answer,
}

module _ (urls : Urls) where
  other_kind : provider_kind ≡ server_kind → ⊥
  other_kind h = cc

  provider-Law : Law urls (provider_options urls)
  unfolding provider_options server_options
  provider-Law = record {
    document-new_entry = λ d etag until at. refl;
    kind-new_entry = λ d etag until at. refl;
    same_kind-eq = λ e h. same_kind_sound e.kind provider_kind h;
    sound = λ tolerate issuer e kind v. (
      λ other k same.
          let here : issuer ≡ other = ++-cancel (provider_options urls).prefix issuer other same in
          subst (λ i. (provider_options urls).validate tolerate i e.provider ≡ ok tt) here v,
      λ other k same. absurd (other_kind (sym kind ∙ k)),
    );
    valid = λ tolerate issuer e s kind. s.0 issuer kind refl;
    keyed = λ issuer e kind. (λ k. refl, λ k. absurd (other_kind (sym kind ∙ k)));
  }

  server-Law : Law urls (server_options urls)
  unfolding provider_options server_options
  server-Law = record {
    document-new_entry = λ d etag until at. refl;
    kind-new_entry = λ d etag until at. refl;
    same_kind-eq = λ e h. same_kind_sound e.kind server_kind h;
    sound = λ tolerate issuer e kind v. (
      λ other k same. absurd (other_kind (sym k ∙ kind)),
      λ other k same.
          let here : issuer ≡ other = ++-cancel (server_options urls).prefix issuer other same in
          subst (λ i. (server_options urls).validate tolerate i e.authorizer ≡ ok tt) here v,
    );
    valid = λ tolerate issuer e s kind. s.1 issuer kind refl;
    keyed = λ issuer e kind. (λ k. absurd (other_kind (sym k ∙ kind)), λ k. refl);
  }

  JobsSound-split :
      (tolerate : Bool) (before after : List Job) (job : Job)
      → JobsSound urls tolerate (before ++ job ∷ after)
      → JobSound urls tolerate job × JobsSound urls tolerate (before ++ after)
  JobsSound-split tolerate [] after job s = s
  JobsSound-split tolerate (j ∷ before) after job (here, rest) =
      let (one, others) = JobsSound-split tolerate before after job rest in (one, (here, others))

  -- The same client without a job.
  unqueue :
      (c : Client) (before after : List Job) (job : Job)
      → IsSound urls c
      → c.jobs ≡ before ++ job ∷ after
      → JobSound urls c.tolerate job × IsSound urls (record c { jobs = before ++ after })
  unqueue c before after job s q =
      let (one, others) =
        JobsSound-split c.tolerate before after job (subst (JobsSound urls c.tolerate) q s.jobs) in
      (one, record { entries = s.entries; jobs = others })

  finish-IsSound :
      {D : Type 0} (opts : RefreshOptions D) (law : Law urls opts) (c : Client) (rest : List Job)
      (now : Time) (job : Job) (server : Text → Text → Option (Response D))
      → IsSound urls (record c { jobs = rest })
      → EntrySound urls c.tolerate job.key job.existing
      → job.key ≡ opts.prefix ++ job.issuer
      → job.existing.kind ≡ opts.kind
      → IsSound urls (finish opts c rest now job server)
  unfolding finish
  finish-IsSound opts law c rest now job server s entry key kind =
      let entry' = subst (λ k. EntrySound urls c.tolerate k job.existing) key entry in
      let v = law.valid c.tolerate job.issuer job.existing entry' kind in
      subst
        (λ k.
          IsSound urls
            (refresh_discovery opts (record c { jobs = rest }) now job.issuer k (some job.existing)
              server).0)
        (sym key)
        (refresh_discovery-Outcome urls opts law (record c { jobs = rest }) now job.issuer
          (some job.existing) server s
          (λ old h.
            let same : job.existing ≡ old = cc in
            subst (λ e. opts.validate c.tolerate job.issuer (opts.document e) ≡ ok tt) same v)).0

  Step-IsSound : (c d : Client) → Step urls c d → IsSound urls c → IsSound urls d
  unfolding discover_provider discover_server provider_options server_options
  Step-IsSound _ _ (called_provider c now fetched issuer server) s =
      (discover-Answer urls (provider_options urls) provider-Law (validate_issuer_url urls.parse) c
        now fetched issuer server s).0
  Step-IsSound _ _ (called_server c now fetched issuer server) s =
      (discover-Answer urls (server_options urls) server-Law (validate_issuer_url urls.parse) c now
        fetched issuer server s).0
  Step-IsSound _ _ (finished_provider c before after job now server q kind) s =
      let ((entry, key, other), rest) = unqueue c before after job s q in
      finish-IsSound (provider_options urls) provider-Law c (before ++ after) now job server rest
        entry (key kind) kind
  Step-IsSound _ _ (finished_server c before after job now server q kind) s =
      let ((entry, other, key), rest) = unqueue c before after job s q in
      finish-IsSound (server_options urls) server-Law c (before ++ after) now job server rest entry
        (key kind) kind
  Step-IsSound _ _ (shared c before after job q) s = (unqueue c before after job s q).1

  Reachable-IsSound : (c : Client) → Reachable urls c → IsSound urls c
  unfolding lookup
  Reachable-IsSound _ (fresh tolerate ttl f) = record {
    entries = λ key e h. absurd (ground arith);
    jobs = tt;
  }
  Reachable-IsSound _ (after_step c d r step) = Step-IsSound c d step (Reachable-IsSound c r)

  -- After any calls and background refreshes in any order, and whatever the servers answer, a provider
  -- document that discovery returns, from the cache, stale or just fetched, names the issuer that was
  -- asked for, up to a tolerated slash, and each of the twelve endpoints that the code checks is absent
  -- or secure. Not among these are the
  -- revocation and end-session endpoints and the aliases for mutual TLS of the registration and
  -- revocation endpoints.
  pub discover_provider_sound :
      (c : Client) (now fetched : Time) (issuer : Text)
      (server : Text → Text → Option (Response Provider)) (p : Provider)
      → Reachable urls c
      → (discover_provider urls c now fetched issuer server).1 ≡ ok p
      → (issuer_matches issuer p.issuer c.tolerate ≡ true)
        × (all (safe urls.parse) (endpoints p) ≡ true)
  unfolding discover_provider provider_options
  discover_provider_sound c now fetched issuer server p r h =
      let answer =
        discover-Answer urls (provider_options urls) provider-Law (validate_issuer_url urls.parse) c
          now fetched issuer server (Reachable-IsSound c r) in
      let (a, b, d, e, f, g, k, ends) =
        validate_provider_sound urls.parse issuer p c.tolerate (answer.2 p h) in
      (b, ends)

  -- The same histories: an authorization server's document that discovery returns has passed
  -- `validateAuthorizationServer` for the issuer that was asked for.
  pub discover_server_valid :
      (c : Client) (now fetched : Time) (issuer : Text)
      (server : Text → Text → Option (Response AuthorizationServer)) (s : AuthorizationServer)
      → Reachable urls c
      → (discover_server urls c now fetched issuer server).1 ≡ ok s
      → validate_server urls.parse issuer s c.tolerate ≡ ok tt
  unfolding discover_server server_options
  discover_server_valid c now fetched issuer server s r h =
      let answer =
        discover-Answer urls (server_options urls) server-Law (validate_issuer_url urls.parse) c now
          fetched issuer server (Reachable-IsSound c r) in
      answer.2 s h
