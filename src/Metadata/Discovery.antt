-- ===== src/Metadata/Discovery.antt =====
-- metadata/discovery.go, metadata/discovery_refresh.go, metadata/cache.go, metadata/http_fetch.go,
-- metadata/well_known.go, httputil/fetchjson.go and cache/store.go: discovery and its cache.
pub mod Steps
pub mod Invariant
pub mod Sound
pub mod Revalidate
mod Tests
use lanyard.Base.{
  ℕ, ◌+◌, Bool, true, false, ◌&&◌, Option, none, some, List, [], ◌∷◌, ◌++◌, Text, codes, ◌==◌,
  trim_space, eqb, ltb, Except, ok, err, ◌>>=◌, ◌>>◌, if◌then◌else◌,
}
use lanyard.Base.Maps.{Dict, lookup, insert}
use lanyard.Http.{Time, Duration}
use lanyard.Metadata.{Provider, no_provider, AuthorizationServer, no_server}
use lanyard.Metadata.Validate.{
  Url, Violation, validate_issuer_url, validate_provider, validate_server,
}

-- `cacheEntryKind`
pub data Kind : Type 0 where
  provider_kind server_kind : Kind

pub record CacheEntry : Type 0 where
  pub kind : Kind
  pub provider : Provider
  pub authorizer : AuthorizationServer
  pub etag : Text
  pub fresh_until : Time
  pub fetched_at : Time

pub data DiscoveryError : Type 0 where
  invalid : Violation → DiscoveryError
  not_sent not_decoded not_modified_without_entry : DiscoveryError
  http_status : ℕ → DiscoveryError

-- A response with a document D, as FetchJSON reads it: `body` is the decoded document, `none` where
-- decoding fails, and `expiry` what cacheobject finds in the headers, `none` for an error or zero.
pub record Response (D : Type 0) : Type 0 where
  pub status : ℕ
  pub etag : Text
  pub body : Option D
  pub expiry : Option Time

-- `CalculateFreshUntil`
abbrev pub fresh_time : Option Time → Duration → Time → Time
fresh_time (some t) ttl now = t
fresh_time none ttl now = now + ttl

-- `discoveryFetchResult`: the document is `none` where the server says that it is not modified.
pub record FetchResult (D : Type 0) : Type 0 where
  pub metadata : Option D
  pub etag : Text
  pub fresh_until : Time
  pub fetched_at : Time

-- FetchJSON and fetchRawJSON on the answer to one request, `none` where client.Do fails.
unfoldable pub fetch_metadata :
    {D : Type 0} → Duration → Time → Option (Response D) → Except DiscoveryError (FetchResult D)
fetch_metadata ttl now none = err not_sent
fetch_metadata {D} ttl now (some r) =
    let result : Option D → FetchResult D = λ d. record {
      metadata = d;
      etag = trim_space r.etag;
      fresh_until = fresh_time r.expiry ttl now;
      fetched_at = now;
    } in
    if eqb r.status 304
    then ok (result none)
    else if eqb r.status 200
    then elim r.body [ none ↦ err not_decoded | some d ↦ ok (result (some d)) ]
    else err (http_status r.status)

-- `trimTrailingSlash`: every slash at the end goes.
unfoldable pub trim_trailing_slash : Text → Text
trim_trailing_slash [] = []
trim_trailing_slash (c ∷ s) =
    let rest = trim_trailing_slash s in if rest == [] && eqb c b'/' then [] else c ∷ rest

-- The parts of net/url and path that the well-known URLs need.
pub record Urls : Type 0 where
  pub parse : Text → Option Url
  pub escaped_path : Url → Text
  pub with_path : Url → Text → Text
  pub clean : Text → Text

-- metadata.Client: its discovery cache, and the refreshes that it has started in the background.
pub record Job : Type 0 where
  pub issuer : Text
  pub key : Text
  pub existing : CacheEntry

pub record Client : Type 0 where
  pub cache : Dict CacheEntry
  pub jobs : List Job
  pub tolerate : Bool
  pub default_ttl : Duration
  pub fresh_discovery : Bool

-- `discoveryRefreshOptions`; `document` is the field of an entry of the kind.
pub record RefreshOptions (D : Type 0) : Type 0 where
  pub prefix : Text
  pub kind : Kind
  pub well_known : Text → Except Violation Text
  pub validate : Bool → Text → D → Except Violation (Unit {0})
  pub new_entry : D → Text → Time → Time → CacheEntry
  pub document : CacheEntry → D

abbrev pub same_kind : Kind → Kind → Bool
same_kind provider_kind provider_kind = true
same_kind server_kind server_kind = true
same_kind _ _ = false

abbrev pub lift_violation {ℓ} : {A : Type ℓ} → Except Violation A → Except DiscoveryError A
lift_violation (ok a) = ok a
lift_violation (err v) = err (invalid v)

-- `newProviderCacheEntry` and `newAuthorizationServerCacheEntry`
abbrev pub new_provider_entry : Provider → Text → Time → Time → CacheEntry
new_provider_entry p etag fresh at = record {
  kind = provider_kind;
  provider = p;
  authorizer = no_server;
  etag = etag;
  fresh_until = fresh;
  fetched_at = at;
}

abbrev pub new_server_entry : AuthorizationServer → Text → Time → Time → CacheEntry
new_server_entry s etag fresh at = record {
  kind = server_kind;
  provider = no_provider;
  authorizer = s;
  etag = etag;
  fresh_until = fresh;
  fetched_at = at;
}

abbrev pub prior_etag : Option CacheEntry → Text
prior_etag none = []
prior_etag (some e) = e.etag

module _ {D : Type 0} (opts : RefreshOptions D) where
  -- `newEntry`, or `refreshExisting` of the entry that the server confirms
  unfoldable pub entry_of :
      Bool → Text → Option CacheEntry → FetchResult D → Except DiscoveryError CacheEntry
  entry_of tolerate issuer existing result = elim result.metadata [
    | some d ↦ do
      lift_violation (opts.validate tolerate issuer d)
      ok (opts.new_entry d result.etag result.fresh_until result.fetched_at)
    | none ↦ elim existing [
      | none ↦ err not_modified_without_entry
      | some e ↦
          let etag = if result.etag == [] then e.etag else result.etag in
          ok (opts.new_entry (opts.document e) etag result.fresh_until result.fetched_at)
    ]
  ]

  -- The call that `refreshDiscovery` makes once per key: `server` answers a request by its URL and its
  -- If-None-Match.
  unfoldable pub refreshed_entry :
      Client
      → Time
      → Text
      → Option CacheEntry
      → (Text → Text → Option (Response D))
      → Except DiscoveryError CacheEntry
  unfolding fetch_metadata
  refreshed_entry c now issuer existing server = do
    url ← lift_violation (opts.well_known issuer)
    result ← fetch_metadata c.default_ttl now (server url (prior_etag existing))
    entry_of c.tolerate issuer existing result

  unfoldable pub refresh_discovery :
      Client
      → Time
      → Text
      → Text
      → Option CacheEntry
      → (Text → Text → Option (Response D))
      → Client × Except DiscoveryError CacheEntry
  refresh_discovery c now issuer key existing server =
      elim (refreshed_entry c now issuer existing server) [
        | err e ↦ (c, err e)
        | ok e ↦ (record c { cache = insert key e c.cache }, ok e)
      ]

  -- The entry that `discoverProvider` or `discoverAuthorizationServer` takes.
  unfoldable pub cached : Client → Text → Option CacheEntry
  cached c key = elim (lookup key c.cache) [
    | none ↦ none
    | some e ↦ if same_kind e.kind opts.kind then some e else none
  ]

  abbrev pub document_of :
      Client × Except DiscoveryError CacheEntry → Client × Except DiscoveryError D
  document_of (c, err e) = (c, err e)
  document_of (c, ok e) = (c, ok (opts.document e))

  -- `discoverProvider` and `discoverAuthorizationServer`; a `go` statement adds a job.
  unfoldable pub discover :
      (Text → Except Violation Url)
      → Client
      → Time
      → Time
      → Text
      → (Text → Text → Option (Response D))
      → Client × Except DiscoveryError D
  discover validate c now fetched issuer server = elim (validate issuer) [
    | err v ↦ (c, err (invalid v))
    | ok u ↦
        let key = opts.prefix ++ issuer in
        elim (cached c key) [
          | none ↦ document_of (refresh_discovery c fetched issuer key none server)
          | some e ↦
              if c.fresh_discovery
              then document_of (refresh_discovery c fetched issuer key (some e) server)
              else if ltb now e.fresh_until
              then (c, ok (opts.document e))
              else (
                record c { jobs = record { issuer = issuer; key = key; existing = e } ∷ c.jobs },
                ok (opts.document e),
              )
        ]
  ]

module _ (urls : Urls) where
  -- `OIDCWellKnownURL`
  unfoldable pub oidc_well_known_url : Text → Except Violation Text
  oidc_well_known_url issuer = do
    u ← validate_issuer_url urls.parse issuer
    let path =
        urls.clean
          (trim_trailing_slash (urls.escaped_path u) ++ codes "/.well-known/openid-configuration")
    ok (
        urls.with_path u
          (if path == codes "." then codes "/.well-known/openid-configuration" else path))

  -- `OAuthASWellKnownURL`
  unfoldable pub server_well_known_url : Text → Except Violation Text
  server_well_known_url issuer = do
    u ← validate_issuer_url urls.parse issuer
    let path = trim_trailing_slash (urls.escaped_path u)
    let base = codes "/.well-known/oauth-authorization-server"
    ok (urls.with_path u (if path == [] then base else urls.clean (base ++ path)))

  -- `providerRefreshOpts`
  unfoldable pub provider_options : RefreshOptions Provider
  provider_options = record {
    prefix = codes "oidc:provider:v1:";
    kind = provider_kind;
    well_known = oidc_well_known_url;
    validate = λ tolerate issuer p. validate_provider urls.parse issuer p tolerate;
    new_entry = new_provider_entry;
    document = λ e. e.provider;
  }

  -- `authorizationServerRefreshOpts`
  unfoldable pub server_options : RefreshOptions AuthorizationServer
  server_options = record {
    prefix = codes "oidc:authz-server:v1:";
    kind = server_kind;
    well_known = server_well_known_url;
    validate = λ tolerate issuer s. validate_server urls.parse issuer s tolerate;
    new_entry = new_server_entry;
    document = λ e. e.authorizer;
  }

  unfoldable pub discover_provider :
      Client
      → Time
      → Time
      → Text
      → (Text → Text → Option (Response Provider))
      → Client × Except DiscoveryError Provider
  discover_provider = discover provider_options (validate_issuer_url urls.parse)

  unfoldable pub discover_server :
      Client
      → Time
      → Time
      → Text
      → (Text → Text → Option (Response AuthorizationServer))
      → Client × Except DiscoveryError AuthorizationServer
  discover_server = discover server_options (validate_issuer_url urls.parse)
