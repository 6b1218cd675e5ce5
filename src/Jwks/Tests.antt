-- ===== src/Jwks/Tests.antt =====
-- Runs of jwks/remote_keyset.go on small inputs.
use lanyard.Base.{◌≡◌, refl, Option, none, some, [], ◌∷◌, Text, codes, ok, err, List, ◌==◌}
use lanyard.Metadata.Discovery.{Response, fetch_metadata}
use lanyard.Jwks.{
  JsonWebKey, KeyEntry, key_not_found, RemoteKeySet, key, forced, refresh_keys, keys, find_key,
  mark_refresh_attempt, key_entry,
}
use lanyard.Jwks.Refresh.{forced_limits}

abbrev first_key : JsonWebKey
first_key = record { key_id = codes "a"; material = codes "A" }

abbrev new_key : JsonWebKey
new_key = record { key_id = codes "b"; material = codes "B" }

abbrev entry : KeyEntry
entry = record {
  keys = first_key ∷ [];
  etag = codes "1";
  fresh_until = 900;
  fetched_at = 100;
  last_refresh_attempt = 0;
}

abbrev key_set : RemoteKeySet
key_set = record {
  cache = some entry;
  jobs = [];
  default_ttl = 300;
  expiry_delta = 10;
  min_refresh_interval = 60;
}

-- The response to a request, whose keys are `ks`.
abbrev answer : List JsonWebKey → Text → Option (Response (List JsonWebKey))
answer ks etag = some (record { status = 200; etag = codes "2"; expiry = none; body = some ks })

found_in_cache : key key_set 200 200 200 200 (codes "a") (answer []) ≡ (key_set, ok first_key)
unfolding key keys find_key ◌==◌
found_in_cache = refl

found_after_refresh :
    (key key_set 200 200 200 200 (codes "b") (answer (first_key ∷ new_key ∷ []))).1 ≡ ok new_key
unfolding key keys find_key forced refresh_keys mark_refresh_attempt key_entry fetch_metadata ◌==◌
found_after_refresh = refl

forced_limits_example :
    forced
      (forced key_set 200 201 (codes "b") (answer [])).0
      230
      231
      (codes "c")
      (answer (new_key ∷ []))
    ≡ ((forced key_set 200 201 (codes "b") (answer [])).0, err key_not_found)
forced_limits_example =
    forced_limits key_set entry 200 201 (codes "b") (answer []) 230 231 (codes "c")
      (answer (new_key ∷ [])) refl refl refl refl
