-- ===== src/Rp/DpopNonce.antt =====
-- rp/dpop_nonce_store.go: the nonces that servers gave for DPoP proofs, by endpoint.
use Prim.Native.Nat.{◌-◌, ◌*◌, ◌≤◌, ◌+◌}
use lanyard.Base.{
  ◌≡◌, refl, ◌∙◌, ge→ltb, ◌≢◌, [], eq_iff, Bool, Option, none, some, Text, ltb, eqb, if◌then◌else◌,
  arith,
}
use lanyard.Base.Maps.{Dict, lookup, insert, erase, lookup-insert, lookup-erase_self}
use lanyard.Http.{Time, Duration, minute}

pub record NonceEntry : Type 0 where
  pub nonce : Text
  pub created_at : Time

pub record NonceStore : Type 0 where
  pub ttl : Duration
  pub m : Dict NonceEntry

-- `newDPoPNonceStore`
unfoldable pub new : Duration → NonceStore
new ttl = record { ttl = if eqb ttl 0 then 5 * minute else ttl; m = [] }

-- `Sub` of a later time is negative, and not over the ttl.
abbrev pub is_stale : NonceStore → NonceEntry → Time → Bool
is_stale s e now = ltb s.ttl (now - e.created_at)

-- What `get` found under the read lock.
pub data Reading : Type 0 where
  missing stale : Reading
  found : Text → Reading

unfoldable pub get_read : NonceStore → Time → Text → Reading
get_read s now endpoint = elim (lookup endpoint s.m) [
  | none ↦ missing
  | some e ↦ if is_stale s e now then stale else found e.nonce
]

-- The rest of `get`: a stale entry is deleted under the write lock.
unfoldable pub get_finish : NonceStore → Text → Reading → NonceStore × Option Text
get_finish s endpoint missing = (s, none)
get_finish s endpoint stale = (record s { m = erase endpoint s.m }, none)
get_finish s endpoint (found nonce) = (s, some nonce)

unfoldable pub get : NonceStore → Time → Text → NonceStore × Option Text
get s now endpoint = get_finish s endpoint (get_read s now endpoint)

unfoldable pub put : NonceStore → Time → Text → Text → NonceStore
put s now endpoint nonce = record s {
  m = insert endpoint (record { nonce = nonce; created_at = now }) s.m;
}

unfoldable pub delete : NonceStore → Text → NonceStore
delete s endpoint = record s { m = erase endpoint s.m }

-- A nonce that was put is returned until it is older than the time to live, and not after.
pub get-put :
    (s : NonceStore) (at now : Time) (endpoint nonce : Text)
    → at ≤ now
    → (get (put s at endpoint nonce) now endpoint).1
      ≡ (if ltb (at + s.ttl) now then none else some nonce)
unfolding get get_read get_finish put
get-put s at now endpoint nonce le = ground (
  arith,
  lookup-insert endpoint endpoint (record { nonce = nonce; created_at = at }) s.m,
  eq_iff endpoint endpoint,
)

-- No other endpoint sees it.
pub get-put_ne :
    (s : NonceStore) (at now : Time) (endpoint other nonce : Text)
    → endpoint ≢ other
    → (get (put s at endpoint nonce) now other).1 ≡ (get s now other).1
unfolding get get_read get_finish put
get-put_ne s at now endpoint other nonce ne = ground (
  arith,
  lookup-insert endpoint other (record { nonce = nonce; created_at = at }) s.m,
  eq_iff endpoint other,
)

-- `get` lets go of the lock between its read and its deletion, and does not look again: a nonce that
-- a response put there in between, at any time `at`, is lost, also to a `now` until which it is good.
pub get_loses_put :
    (s s' : NonceStore) (t at now : Time) (endpoint nonce : Text)
    → get_read s t endpoint ≡ stale
    → at ≤ now
    → now ≤ at + s'.ttl
    → ((get (put s' at endpoint nonce) now endpoint).1 ≡ some nonce)
      × ((get
            (get_finish (put s' at endpoint nonce) endpoint (get_read s t endpoint)).0
            now
            endpoint).1
          ≡ none)
get_loses_put s s' t at now endpoint nonce h le fresh =
    (get-put s' at now endpoint nonce le ∙ rw (ge→ltb (at + s'.ttl) now fresh) refl, lost)
  where
    lost :
        (get
          (get_finish (put s' at endpoint nonce) endpoint (get_read s t endpoint)).0
          now
          endpoint).1
        ≡ none
    lost =
        unfold get get_read get_finish put in
        rw (h, get_finish)
          (rw
            (lookup-erase_self endpoint
              (insert endpoint (record { nonce = nonce; created_at = at }) s'.m))
            refl)
