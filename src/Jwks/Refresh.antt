-- ===== src/Jwks/Refresh.antt =====
-- jwks/remote_keyset.go: how often a key that is not there makes the code ask the server.
use lanyard.Base.{
  ◌≡◌, refl, ◌+◌, true, false, Option, none, some, List, Text, eqb, ltb, Except, ok, err, ◌>>=◌,
}
use lanyard.Http.{Time, Duration}
use lanyard.Metadata.Discovery.{Response, FetchResult, DiscoveryError, fetch_metadata}
use lanyard.Jwks.{
  JsonWebKey, KeyEntry, KeyError, key_not_found, RemoteKeySet, lift_fetch, key_entry, stored,
  refresh_keys, forced, mark_refresh_attempt, too_soon,
}

-- What the cache holds was last refreshed by force at `t`, and the interval is `d`.
abbrev AttemptedAt : Time → Duration → RemoteKeySet → Type 0
AttemptedAt t d r =
    ((e : KeyEntry) × (r.cache ≡ some e) × (e.last_refresh_attempt ≡ t))
    × (r.min_refresh_interval ≡ d)

-- An entry that a fetch leaves has the attempt `t`.
abbrev Keeps : Time → Except KeyError KeyEntry → Type 0
Keeps t (ok n) = n.last_refresh_attempt ≡ t
Keeps t (err x) = Unit

key_entry-Keeps :
    (e : KeyEntry) (result : FetchResult (List JsonWebKey)) (m : Option (List JsonWebKey))
    → result.metadata ≡ m
    → Keeps e.last_refresh_attempt (key_entry (some e) result)
unfolding key_entry
key_entry-Keeps e result none unmodified = rw unmodified refl
key_entry-Keeps e result (some ks) read = rw read refl

fetched-Keeps :
    (e : KeyEntry) (fetched : Except DiscoveryError (FetchResult (List JsonWebKey)))
    → Keeps e.last_refresh_attempt (do result ← lift_fetch fetched; key_entry (some e) result)
fetched-Keeps e (ok result) = key_entry-Keeps e result result.metadata refl
fetched-Keeps e (err x) = tt

stored-AttemptedAt :
    (r : RemoteKeySet) (e : KeyEntry) (outcome : Except KeyError KeyEntry)
    → r.cache ≡ some e
    → Keeps e.last_refresh_attempt outcome
    → AttemptedAt e.last_refresh_attempt r.min_refresh_interval (stored r outcome).0
stored-AttemptedAt r e (ok n) cached kept = ((n, refl, kept), refl)
stored-AttemptedAt r e (err x) cached kept = ((e, cached, refl), refl)

-- A refresh leaves the attempt of the entry before, whether it succeeds or not.
refresh-AttemptedAt :
    (r : RemoteKeySet) (e : KeyEntry) (now : Time)
    (server : Text → Option (Response (List JsonWebKey)))
    → r.cache ≡ some e
    → AttemptedAt e.last_refresh_attempt r.min_refresh_interval
        (refresh_keys r now (some e) server).0
unfolding refresh_keys
refresh-AttemptedAt r e now server cached =
    stored-AttemptedAt r e _ cached
      (fetched-Keeps e (fetch_metadata r.default_ttl now (server e.etag)))

-- A forced refresh leaves the time at which it was allowed.
forced-AttemptedAt :
    (r : RemoteKeySet) (e : KeyEntry) (now fetched : Time) (kid : Text)
    (server : Text → Option (Response (List JsonWebKey)))
    → r.cache ≡ some e
    → too_soon r e now ≡ false
    → AttemptedAt now r.min_refresh_interval (forced r now fetched kid server).0
unfolding forced mark_refresh_attempt
forced-AttemptedAt r e now fetched kid server cached allowed =
    rw (cached, allowed)
      (refresh-AttemptedAt (record r { cache = some (record e { last_refresh_attempt = now }) })
        (record e { last_refresh_attempt = now }) fetched server refl)

too_soon-true :
    (r : RemoteKeySet) (e : KeyEntry) (now : Time)
    → eqb e.last_refresh_attempt 0 ≡ false
    → ltb now (e.last_refresh_attempt + r.min_refresh_interval) ≡ true
    → too_soon r e now ≡ true
too_soon-true r e now set within = rw (set, within) refl

too_soon-limited :
    (r : RemoteKeySet) (e : KeyEntry) (now fetched : Time) (kid : Text)
    (server : Text → Option (Response (List JsonWebKey)))
    → r.cache ≡ some e
    → too_soon r e now ≡ true
    → forced r now fetched kid server ≡ (r, err key_not_found)
unfolding forced mark_refresh_attempt
too_soon-limited r e now fetched kid server cached soon = rw (cached, soon) refl

-- Within the interval a forced refresh does nothing.
AttemptedAt-limited :
    (r : RemoteKeySet) (t : Time) (d : Duration) (now fetched : Time) (kid : Text)
    (server : Text → Option (Response (List JsonWebKey)))
    → AttemptedAt t d r
    → eqb t 0 ≡ false
    → ltb now (t + d) ≡ true
    → forced r now fetched kid server ≡ (r, err key_not_found)
AttemptedAt-limited r t d now fetched kid server ((e, cached, attempted), interval) set within =
    too_soon-limited r e now fetched kid server cached
      (too_soon-true r e now (rw attempted set) (rw (attempted, interval) within))

-- Let a forced refresh of the entry in the cache be allowed at a time `now` that is not 0. Whatever the
-- server answers, another call of the last part of Key on the key set it leaves, for any key id and any
-- server, before `now` and the minimal interval have passed, returns that the key is not found, leaves the
-- key set as it is and does not depend on the server.
pub forced_limits :
    (r : RemoteKeySet) (e : KeyEntry) (now fetched : Time) (kid : Text)
    (server : Text → Option (Response (List JsonWebKey))) (later fetched2 : Time) (kid2 : Text)
    (server2 : Text → Option (Response (List JsonWebKey)))
    → r.cache ≡ some e
    → too_soon r e now ≡ false
    → eqb now 0 ≡ false
    → ltb later (now + r.min_refresh_interval) ≡ true
    → forced (forced r now fetched kid server).0 later fetched2 kid2 server2
      ≡ ((forced r now fetched kid server).0, err key_not_found)
forced_limits r e now fetched kid server later fetched2 kid2 server2 cached allowed set within =
    AttemptedAt-limited _ now r.min_refresh_interval later fetched2 kid2 server2
      (forced-AttemptedAt r e now fetched kid server cached allowed) set within
