-- ===== src/Jwks.antt =====
-- jwks/remote_keyset.go, jwks/cache.go and jwks/http_fetch.go: the keys behind a URL, over a cache.
pub mod Refresh
mod Tests
use lanyard.Base.{
  ℕ, ◌+◌, Bool, true, false, not, ◌&&◌, Option, none, some, List, [], ◌∷◌, Text, codes, ◌==◌, eqb,
  ltb, Except, ok, err, ◌>>=◌, if◌then◌else◌,
}
use lanyard.Http.{Time, Duration}
use lanyard.Metadata.Discovery.{Response, FetchResult, DiscoveryError, fetch_metadata}

-- What the code reads of a jose.JSONWebKey, and the key itself.
pub record JsonWebKey : Type 0 where
  pub key_id : Text
  pub material : Text

pub record KeyEntry : Type 0 where
  pub keys : List JsonWebKey
  pub etag : Text
  pub fresh_until : Time
  pub fetched_at : Time
  pub last_refresh_attempt : Time

pub data KeyError : Type 0 where
  key_not_found : KeyError
  fetch_failed : DiscoveryError → KeyError
  not_modified_without_entry : KeyError

-- RemoteKeySet, with what its cache holds under its key and the refreshes that it has started.
pub record RemoteKeySet : Type 0 where
  pub cache : Option KeyEntry
  pub jobs : List KeyEntry
  pub default_ttl : Duration
  pub expiry_delta : Duration
  pub min_refresh_interval : Duration

-- `findKey`
unfoldable pub find_key : List JsonWebKey → Text → Option JsonWebKey
find_key [] kid = none
find_key (key ∷ keys) kid = if key.key_id == kid then some key else find_key keys kid

-- `time.Time.Sub` of the last attempt, which may be later, below the interval
abbrev pub too_soon : RemoteKeySet → KeyEntry → Time → Bool
too_soon r e now =
    not (eqb e.last_refresh_attempt 0) && ltb now (e.last_refresh_attempt + r.min_refresh_interval)

-- `markRefreshAttempt`
unfoldable pub mark_refresh_attempt :
    RemoteKeySet → Option KeyEntry → Time → RemoteKeySet × Option KeyEntry × Bool
mark_refresh_attempt r none now = (r, none, true)
mark_refresh_attempt r (some e) now =
    if too_soon r e now
    then (r, some e, false)
    else let marked = record e { last_refresh_attempt = now } in
      (record r { cache = some marked }, some marked, true)

abbrev pub prior_etag : Option KeyEntry → Text
prior_etag none = []
prior_etag (some e) = e.etag

abbrev pub last_attempt : Option KeyEntry → Time
last_attempt none = 0
last_attempt (some e) = e.last_refresh_attempt

abbrev new_entry : List JsonWebKey → Text → FetchResult (List JsonWebKey) → Time → KeyEntry
new_entry keys etag result attempt = record {
  keys = keys;
  etag = etag;
  fresh_until = result.fresh_until;
  fetched_at = result.fetched_at;
  last_refresh_attempt = attempt;
}

abbrev pub lift_fetch {ℓ} : {A : Type ℓ} → Except DiscoveryError A → Except KeyError A
lift_fetch (ok a) = ok a
lift_fetch (err e) = err (fetch_failed e)

unfoldable pub key_entry :
    Option KeyEntry → FetchResult (List JsonWebKey) → Except KeyError KeyEntry
key_entry existing result = elim result.metadata [
  | some keys ↦ ok (new_entry keys result.etag result (last_attempt existing))
  | none ↦ elim existing [
    | none ↦ err not_modified_without_entry
    | some e ↦ ok (
        new_entry e.keys (if result.etag == [] then e.etag else result.etag) result
          e.last_refresh_attempt)
  ]
]

abbrev pub stored :
    RemoteKeySet → Except KeyError KeyEntry → RemoteKeySet × Except KeyError KeyEntry
stored r (err e) = (r, err e)
stored r (ok e) = (record r { cache = some e }, ok e)

-- `refresh`, run on its own: `server` answers a request by its If-None-Match; the decoded keys are those entries of the
-- document that are keys.
unfoldable pub refresh_keys :
    RemoteKeySet
    → Time
    → Option KeyEntry
    → (Text → Option (Response (List JsonWebKey)))
    → RemoteKeySet × Except KeyError KeyEntry
unfolding key_entry fetch_metadata
refresh_keys r now existing server = stored r (do
  result ← lift_fetch (fetch_metadata r.default_ttl now (server (prior_etag existing)))
  key_entry existing result)

abbrev keys_of :
    RemoteKeySet × Except KeyError KeyEntry → RemoteKeySet × Except KeyError (List JsonWebKey)
keys_of (r, ok e) = (r, ok e.keys)
keys_of (r, err e) = (r, err e)

-- `Keys`; its `go` statement adds a job with the entry that was cached then.
unfoldable pub keys :
    RemoteKeySet
    → Time
    → Time
    → (Text → Option (Response (List JsonWebKey)))
    → RemoteKeySet × Except KeyError (List JsonWebKey)
unfolding refresh_keys
keys r now fetched server = elim r.cache [
  | none ↦ keys_of (refresh_keys r fetched none server)
  | some e ↦
      if ltb (now + r.expiry_delta) e.fresh_until
      then (r, ok e.keys)
      else (record r { jobs = e ∷ r.jobs }, ok e.keys)
]

-- The last part of `Key`: one forced refresh.
abbrev found_or : Option JsonWebKey → Except KeyError JsonWebKey
found_or none = err key_not_found
found_or (some k) = ok k

abbrev has_keys : Option KeyEntry → Bool
has_keys none = false
has_keys (some e) = elim e.keys [ [] ↦ false | k ∷ ks ↦ true ]

unfoldable pub forced :
    RemoteKeySet
    → Time
    → Time
    → Text
    → (Text → Option (Response (List JsonWebKey)))
    → RemoteKeySet × Except KeyError JsonWebKey
unfolding refresh_keys mark_refresh_attempt find_key
forced r now fetched kid server =
    let (r', entry, allowed) = mark_refresh_attempt r r.cache now in
    if not allowed
    then (r', err key_not_found)
    else let (r'', refreshed) = refresh_keys r' fetched entry server in
      (
        r'',
        elim refreshed [
          | err e ↦ if has_keys entry then err key_not_found else err e
          | ok e ↦ found_or (find_key e.keys kid)
        ],
      )

-- `Key`, with the clock readings of its parts: two calls of `server` at most.
unfoldable pub key :
    RemoteKeySet
    → Time
    → Time
    → Time
    → Time
    → Text
    → (Text → Option (Response (List JsonWebKey)))
    → RemoteKeySet × Except KeyError JsonWebKey
unfolding keys
key r now fetched later again kid server =
    let (r', found) = keys r now fetched server in
    elim found [
      | err e ↦ (r', err e)
      | ok ks ↦ elim (find_key ks kid) [
        | some k ↦ (r', ok k)
        | none ↦ forced r' later again kid server
      ]
    ]
