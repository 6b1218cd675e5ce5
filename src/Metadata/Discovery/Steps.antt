-- ===== src/Metadata/Discovery/Steps.antt =====
-- metadata/discovery.go: the calls on a client and the refreshes that it runs in the background, in any
-- order.
use lanyard.Base.{◌≡◌, Bool, some, List, [], ◌∷◌, ◌++◌, Option, Text}
use lanyard.Http.{Time, Duration}
use lanyard.Metadata.{Provider, AuthorizationServer}
use lanyard.Metadata.Discovery.{
  provider_kind, server_kind, Client, Job, Response, RefreshOptions, Urls, refresh_discovery,
  provider_options, server_options, discover_provider, discover_server,
}

-- The caches and settings of `NewClient`.
abbrev pub new_client : Bool → Duration → Bool → Client
new_client tolerate ttl fresh = record {
  cache = [];
  jobs = [];
  tolerate = tolerate;
  default_ttl = ttl;
  fresh_discovery = fresh;
}

-- A job that is done: of its refresh only the cache is kept.
unfoldable pub finish :
    {D : Type 0}
    → RefreshOptions D
    → Client
    → List Job
    → Time
    → Job
    → (Text → Text → Option (Response D))
    → Client
finish opts c rest now job server =
    (refresh_discovery opts (record c { jobs = rest }) now job.issuer job.key (some job.existing)
      server).0

-- One call, or the end of one job: by its own request, or by that of another call for the same key,
-- which singleflight shares with it.
pub data Step (urls : Urls) : Client → Client → Type 0 where
  called_provider :
      (c : Client) (now fetched : Time) (issuer : Text)
      (server : Text → Text → Option (Response Provider))
      → Step urls c (discover_provider urls c now fetched issuer server).0
  called_server :
      (c : Client) (now fetched : Time) (issuer : Text)
      (server : Text → Text → Option (Response AuthorizationServer))
      → Step urls c (discover_server urls c now fetched issuer server).0
  finished_provider :
      (c : Client) (before after : List Job) (job : Job) (now : Time)
      (server : Text → Text → Option (Response Provider))
      → c.jobs ≡ before ++ job ∷ after
      → job.existing.kind ≡ provider_kind
      → Step urls c (finish (provider_options urls) c (before ++ after) now job server)
  finished_server :
      (c : Client) (before after : List Job) (job : Job) (now : Time)
      (server : Text → Text → Option (Response AuthorizationServer))
      → c.jobs ≡ before ++ job ∷ after
      → job.existing.kind ≡ server_kind
      → Step urls c (finish (server_options urls) c (before ++ after) now job server)
  shared :
      (c : Client) (before after : List Job) (job : Job)
      → c.jobs ≡ before ++ job ∷ after
      → Step urls c (record c { jobs = before ++ after })

-- The clients that New makes and every sequence of steps leads to.
pub data Reachable (urls : Urls) : Client → Type 0 where
  fresh : (tolerate : Bool) (ttl : Duration) (f : Bool) → Reachable urls (new_client tolerate ttl f)
  after_step : (c d : Client) → Reachable urls c → Step urls c d → Reachable urls d
