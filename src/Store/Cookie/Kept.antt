-- ===== src/Store/Cookie/Kept.antt =====
-- rp/store/cookie/store.go: a value there and back.
use mathlib.Core.Path.{subst}
use lanyard.Base.{
  ℕ, ◌≡◌, refl, sym, ◌∙◌, ◌≢◌, true, false, Option, none, some, List, [], Text, eq_iff, arith, ok,
  all, zero, suc, ◌+◌, ◌*◌, ◌/◌, ◌≤◌, ◌⊎◌, inl, inr, Bool-cases, eqb, if◌then◌else◌,
}
use lanyard.Base.Maps.{Dict, insert, lookup, lookup-insert_self}
use lanyard.Base.Base64.{encode}
use lanyard.Base.Base64.Encode.{is_byte}
use lanyard.Base.Base64.Decode.{decode_string-encode}
use lanyard.Base.Int.{ℤ, pos, negsuc}
use lanyard.Store.Cookie.Carried.{unix_to_time-unix_seconds}
use lanyard.Http.{Time, Duration, second, ResponseWriter}
use lanyard.Store.Cookie.Payload.{
  Payload, PayloadState, PayloadCorrelation, created, expiry_of, unix_seconds, unix_to_time,
  state_or_zero, is_expired,
}
use lanyard.Store.Cookie.Session.{Sessions, Session, Store, decode_payload, ttl_to_max_age}
use lanyard.Store.Cookie.Operations.{entry_at, put}
use lanyard.Store.Cookie.Values.{valued_entry, unnamed, save_value, read_value, load_value}
use lanyard.Store.Cookie.RoundTrip.{
  Same, SameEntry, same_expiry, versioned, holding, over, load_payload-over, decode_holding,
  opened-over, saved_text, insert_full,
}

-- Of two entries that are the same, a value is read alike.
read_value-same :
    (s : Store) (t : Time) (name : Text) (o o' : Option PayloadState)
    → SameEntry o o'
    → read_value s t name o' ≡ read_value s t name o
unfolding read_value
read_value-same s t name none none h = refl
read_value-same s t name none (some f) h = absurd h
read_value-same s t name (some e) none h = absurd h
read_value-same s t name (some e) (some f) h = rw (same_expiry s e f t h.0 h.1) (rw (h.2 name) refl)

valued_entry-value :
    (s : Store) (now : Time) (name : Text) (v : List ℕ) (old : PayloadState)
    → lookup name (valued_entry s now name v old).values ≡ some (encode v)
unfolding valued_entry
valued_entry-value s now name v old = lookup-insert_self name (encode v) _

-- What is read of an entry that SaveValue wrote.
read_value-valued_entry :
    (s : Store) (now t : Time) (name : Text) (v : List ℕ) (old : PayloadState)
    → all is_byte v ≡ true
    → is_expired s.ttl (valued_entry s now name v old) t ≡ false
    → read_value s t name (some (valued_entry s now name v old)) ≡ ok (some v)
unfolding read_value
read_value-valued_entry s now t name v old b fresh =
    rw fresh (rw (valued_entry-value s now name v old) (rw (decode_string-encode v b) refl))

-- The creation time that SaveValue gives an entry with the creation time `z`.
abbrev restamped : Time → ℤ → ℤ
restamped now (pos n) = if eqb n 0 then unix_seconds now else pos n
restamped now (negsuc n) = negsuc n

restamped-live :
    (ttl : Duration) (now t : Time) (values values' : Dict Text) (o : Option PayloadCorrelation)
    (z : ℤ)
    → t ≤ now / second * second + ttl
    → is_expired ttl (record { correlation = o; values = values; created_at = z }) t ≡ false
    → is_expired ttl (record { correlation = o; values = values'; created_at = restamped now z }) t
      ≡ false
unfolding is_expired created expiry_of unix_to_time
restamped-live ttl now t values values' o (pos (suc n)) soon h =
    let same : pos (suc n) ≡ restamped now (pos (suc n)) = ground arith in
    subst
      (λ x. is_expired ttl (record { correlation = o; values = values'; created_at = x }) t ≡ false)
      same h
restamped-live ttl now t values values' o (negsuc n) soon h = h
restamped-live ttl now t values values' none (pos zero) soon h =
    rw (unix_to_time-unix_seconds now) (ground arith)
restamped-live ttl now t values values' (some c) (pos zero) soon h =
    rw (unix_to_time-unix_seconds now) (ground arith)

-- The entry that SaveValue writes lives for the time to live, if the old one does or had expired.
valued_entry-live :
    (s : Store) (now t : Time) (name : Text) (v : List ℕ) (old : PayloadState)
    → t ≤ now / second * second + s.ttl
    → (is_expired s.ttl old now ≡ true) ⊎ (is_expired s.ttl old t ≡ false)
    → is_expired s.ttl (valued_entry s now name v old) t ≡ false
unfolding valued_entry
valued_entry-live s now t name v old soon live = elim (Bool-cases (is_expired s.ttl old now)) [
  | inl expired ↦ rw expired (
      restamped-live s.ttl now t [] (insert name (encode v) []) none (pos 0) soon
        (unfold is_expired created expiry_of unix_to_time in refl))
  | inr fine ↦ rw fine (
      restamped-live s.ttl now t old.values (insert name (encode v) old.values) old.correlation
        old.created_at soon (ground arith))
]

module _ (codec : Sessions) (s : Store) where
  -- A value that is saved is loaded from a request that carries the cookie of that response, while the
  -- time to live, counted from the second of the save, has not passed, and the state has not expired by
  -- what it was before. One that had expired at the save starts anew, and lives for the time to live.
  pub load-save_value_cookie :
      (now t : Time) (session : Session) (w w' w2 : ResponseWriter) (state name encoded : Text)
      (v : List ℕ) (current decoded : Payload)
      → state ≢ []
      → name ≢ []
      → all is_byte v ≡ true
      → decode_payload codec (lookup s.payload_key session.values) ≡ ok current
      → codec.marshal (
          versioned (
            put state (valued_entry s now name v (state_or_zero (entry_at state current))) current))
        ≡ some encoded
      → codec.save s.session_name
          (holding s session encoded)
          (record s.cookie_options { max_age = ttl_to_max_age s.ttl })
          w
        ≡ ok w'
      → codec.unmarshal encoded ≡ some decoded
      → Same
          (versioned (
            put state (valued_entry s now name v (state_or_zero (entry_at state current))) current))
          decoded
      → t ≤ now / second * second + s.ttl
      → (is_expired s.ttl (state_or_zero (entry_at state current)) now ≡ true)
        ⊎ (is_expired s.ttl (state_or_zero (entry_at state current)) t ≡ false)
      → (save_value codec s now (over session w) state name v
          ≡ (over (holding s session encoded) w', ok tt))
        × (load_value codec s t (over (holding s session encoded) w2) state name ≡ ok (some v))
  unfolding save_value load_value
  load-save_value_cookie now t session w w' w2 state name encoded v current decoded ne nn bytes read
        made sent back same soon live =
      let entry = valued_entry s now name v (state_or_zero (entry_at state current)) in
      let fresh =
        valued_entry-live s now t name v (state_or_zero (entry_at state current)) soon live in
      let named : unnamed state name ≡ false = ground (arith, eq_iff state [], eq_iff name []) in
      let hit = lookup-insert_self state entry current.states in
      let there : SameEntry (some entry) (lookup state decoded.states) =
        rw (sym hit) (same.entries state) in
      let value =
        read_value-same s t name (some entry) (lookup state decoded.states) there
        ∙ read_value-valued_entry s now t name v (state_or_zero (entry_at state current)) bytes
            fresh in
      let loaded =
        load_payload-over codec s (holding s session encoded) w2 decoded
          (decode_holding codec s session encoded decoded back (rw (sym same.version) refl)) in
      (
        rw named (
            opened-over codec s session w current _ _ read
            ∙ saved_text codec s session (put state entry current) encoded w w'
                (insert_full state entry current.states) made sent),
        rw named (rw loaded value),
      )
