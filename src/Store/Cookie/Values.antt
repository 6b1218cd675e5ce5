-- ===== src/Store/Cookie/Values.antt =====
-- rp/store/cookie/store.go: loading states, and the operations on caller-owned values.
use lanyard.Base.{
  ℕ, Bool, true, false, ◌&&◌, ◌||◌, Option, none, some, List, [], ◌∷◌, Text, ◌==◌, eqb,
  if◌then◌else◌, is_empty, Except, ok, err, ◌>>=◌, ◌>>◌, fail_if, or_fail,
}
use lanyard.Base.Int.{pos, negsuc}
use lanyard.Base.Maps.{Dict, lookup, insert, erase}
use lanyard.Base.Base64.{encode}
use lanyard.Base.Base64.Decode.{decode_string}
use lanyard.Http.{Time}
use lanyard.Store.{StateScope, Bytes}
use lanyard.Store.Memory.{zero_correlation}
use lanyard.Store.Cookie.Payload.{
  Payload, PayloadState, state_or_zero, zero_state, unix_seconds, from_payload, is_expired,
  decode_values,
}
use lanyard.Store.Cookie.Session.{
  Sessions, Store, CookieError, empty_state, empty_name, bad_value, Exchange, load_payload,
  save_payload,
}
use lanyard.Store.Cookie.Operations.{Result, entry_at, put, drop, then_return, opened}

-- `entry.Correlation == nil && len(entry.Values) == 0`
abbrev pub is_spent : PayloadState → Bool
is_spent e = is_empty e.values && elim e.correlation [ none ↦ true | some c ↦ false ]

-- The payload without a value; an entry with nothing left goes.
unfoldable pub without_value : Text → Text → PayloadState → Payload → Payload
without_value state name entry p =
    let left = record entry { values = erase name entry.values } in
    if is_spent left then drop state p else put state left p

-- The entry that SaveValue writes over `old`: an expired one starts anew.
unfoldable pub valued_entry : Store → Time → Text → List ℕ → PayloadState → PayloadState
valued_entry s now name value old =
    let entry = if is_expired s.ttl old now then zero_state else old in
    record entry {
      created_at = elim entry.created_at [
        | pos n ↦ if eqb n 0 then unix_seconds now else pos n
        | negsuc n ↦ negsuc n
      ];
      values = insert name (encode value) entry.values;
    }

-- The guards on state and name.
abbrev pub unnamed : Text → Text → Bool
unnamed state name = state == [] || name == []

abbrev pub naming_problem : Text → CookieError
naming_problem state = if state == [] then empty_state else empty_name

-- A []byte of the interface is never nil here.
unfoldable pub as_bytes : Dict (List ℕ) → Dict Bytes
as_bytes [] = []
as_bytes ((k, v) ∷ m) = (k, some v) ∷ as_bytes m

-- A value of an entry that is there and has not expired.
unfoldable pub read_value :
    Store → Time → Text → Option PayloadState → Except CookieError (Option (List ℕ))
read_value s now name none = ok none
read_value s now name (some entry) =
    if is_expired s.ttl entry now then ok none else elim (lookup name entry.values) [
      | none ↦ ok none
      | some raw ↦ do value ← or_fail (decode_string raw) bad_value; ok (some value)
    ]

module _ (codec : Sessions) where
  unfoldable pub load_state :
      Store → Time → Exchange → Text → Except CookieError (Option StateScope)
  load_state s now x state = do
    fail_if (state == []) empty_state
    loaded ← load_payload codec s x
    elim (entry_at state loaded.1) [
      | none ↦ ok none
      | some entry ↦ if is_expired s.ttl entry now then ok none else do
        values ← or_fail (decode_values entry.values) bad_value
        ok (
            some (record {
              correlation = elim entry.correlation [
                | none ↦ zero_correlation
                | some c ↦ from_payload c
              ];
              values = as_bytes values;
            }))
    ]

  unfoldable pub save_value : Store → Time → Exchange → Text → Text → List ℕ → Result (Unit {0})
  save_value s now x state name value =
      opened codec s x (unnamed state name) (naming_problem state) (λ session current w.
        save_payload codec s session
          (put state (valued_entry s now name value (state_or_zero (entry_at state current)))
            current)
          w)

  unfoldable pub load_value :
      Store → Time → Exchange → Text → Text → Except CookieError (Option (List ℕ))
  load_value s now x state name = do
    fail_if (unnamed state name) (naming_problem state)
    loaded ← load_payload codec s x
    read_value s now name (entry_at state loaded.1)

  unfoldable pub delete_value : Store → Exchange → Text → Text → Result (Unit {0})
  delete_value s x state name =
      opened codec s x (unnamed state name) (naming_problem state) (λ session current w.
        elim (entry_at state current) [
          | none ↦ (x, ok tt)
          | some entry ↦ save_payload codec s session (without_value state name entry current) w
        ])

  unfoldable pub consume_value : Store → Time → Exchange → Text → Text → Result (Option (List ℕ))
  consume_value s now x state name =
      opened codec s x (unnamed state name) (naming_problem state) (λ session current w.
        elim (entry_at state current) [
          | none ↦ (x, ok none)
          | some entry ↦
              if is_expired s.ttl entry now
              then then_return (save_payload codec s session (drop state current) w) none
              else elim (read_value s now name (some entry)) [
                | err e ↦ (x, err e)
                | ok none ↦ (x, ok none)
                | ok (some value) ↦
                    then_return
                      (save_payload codec s session (without_value state name entry current) w)
                      (some value)
              ]
        ])
