-- ===== src/Store/Cookie/RoundTrip.antt =====
-- rp/store/cookie/store.go: a correlation there and back.
use lanyard.Base.{
  ◌≡◌, refl, sym, ap, ◌∙◌, ◌≢◌, true, false, Option, none, some, [], ◌∷◌, Text, ◌==◌, eq_iff, arith,
  Except, ok, is_empty, Bool, inl, inr, Bool-cases, Except-cases, Option-cases,
}
use mathlib.Core.Path.{subst}
use lanyard.Base.Int.{ℤ, negsuc}
use lanyard.Base.Maps.{Dict, lookup, insert, erase, lookup-insert_self, lookup-erase_self}
use lanyard.Http.{Time, ResponseWriter}
use lanyard.Store.{CallbackCorrelation}
use lanyard.Store.Cookie.Payload.{
  Payload, PayloadState, PayloadCorrelation, payload_version, state_or_zero, to_payload,
  from_payload, is_expired, created, expiry_of,
}
use lanyard.Store.Cookie.Session.{
  Sessions, Session, Store, text, CookieError, Exchange, Attached, no_request, unreadable, attached,
  no_cookie, failed, require_mutable, decode_payload, decode_text, load_payload, write,
  save_payload, ttl_to_max_age, is_supported,
}
use lanyard.Store.Cookie.Operations.{
  entry_at, put, drop, then_return, opened, saved_entry, stamped, save_correlation, consume_entry,
  consume_correlation,
}
use lanyard.Store.Cookie.Carried.{carried, from_payload-to_payload}

-- The same entry, its values in any order.
abbrev pub SameEntry : Option PayloadState → Option PayloadState → Type 0
SameEntry none none = Unit
SameEntry none (some f) = ⊥
SameEntry (some e) none = ⊥
SameEntry (some e) (some f) =
    (e.correlation ≡ f.correlation)
    × (e.created_at ≡ f.created_at)
    × ((name : Text) → lookup name e.values ≡ lookup name f.values)

-- The same payload, its states in any order: what JSON keeps of one.
pub record Same (p q : Payload) : Type 0 where
  pub version : p.version ≡ q.version
  pub entries : (state : Text) → SameEntry (lookup state p.states) (lookup state q.states)

abbrev pub versioned : Payload → Payload
versioned p = record p { version = payload_version }

-- The session object that holds a text under the payload key.
abbrev pub holding : Store → Session → Text → Session
holding s session encoded = record { values = insert s.payload_key (text encoded) session.values }

abbrev pub over : Session → ResponseWriter → Exchange
over session w = record { req = attached session; w = some w }

abbrev session_of : Attached → Session
session_of no_request = record { values = [] }
session_of unreadable = record { values = [] }
session_of (attached session) = session

is_empty-nil : {V : Type 0} (m : Dict V) → is_empty m ≡ true → m ≡ []
is_empty-nil [] h = refl
is_empty-nil (kv ∷ m) h = cc

pub same_expiry :
    (s : Store) (e f : PayloadState) (t : Time)
    → e.correlation ≡ f.correlation
    → e.created_at ≡ f.created_at
    → is_expired s.ttl f t ≡ is_expired s.ttl e t
unfolding is_expired created expiry_of
same_expiry s e f t h k =
    let alike : f ≡ record e { values = f.values } = cc in ap (λ x. is_expired s.ttl x t) alike

pub insert_full : {V : Type 0} (k : Text) (v : V) (m : Dict V) → is_empty (insert k v m) ≡ false
unfolding insert
insert_full k v [] = refl
insert_full k v ((j, w) ∷ m) = ground arith

-- Where the other payload has the entry, so has the one.
pub SameEntry-some :
    (e : PayloadState) (o : Option PayloadState)
    → SameEntry (some e) o
    → (f : PayloadState) × (o ≡ some f)
      × (e.correlation ≡ f.correlation)
      × (e.created_at ≡ f.created_at)
SameEntry-some e none h = absurd h
SameEntry-some e (some f) h = (f, refl, h.0, h.1)

module _ (codec : Sessions) (s : Store) where
  pub load_payload-over :
      (session : Session) (w : ResponseWriter) (p : Payload)
      → decode_payload codec (lookup s.payload_key session.values) ≡ ok p
      → load_payload codec s (over session w) ≡ ok (session, p)
  unfolding load_payload
  load_payload-over session w p h = rw h refl

  pub decode_holding :
      (session : Session) (encoded : Text) (p : Payload)
      → codec.unmarshal encoded ≡ some p
      → is_supported p.version ≡ true
      → decode_payload codec (lookup s.payload_key (holding s session encoded).values) ≡ ok p
  unfolding decode_payload decode_text
  decode_holding session encoded p read v =
      rw (lookup-insert_self s.payload_key (text encoded) session.values) (rw read (rw v refl))

  pub opened-over :
      {A : Type 0} (session : Session) (w : ResponseWriter) (p : Payload) (problem : CookieError)
      (k : Session → Payload → ResponseWriter → Exchange × Except CookieError A)
      → decode_payload codec (lookup s.payload_key session.values) ≡ ok p
      → opened codec s (over session w) false problem k ≡ k session p w
  unfolding opened require_mutable
  opened-over session w p problem k h = rw (load_payload-over session w p h) refl

  pub saved_text :
      (session : Session) (p : Payload) (encoded : Text) (w w' : ResponseWriter)
      → is_empty p.states ≡ false
      → codec.marshal (versioned p) ≡ some encoded
      → codec.save s.session_name
          (holding s session encoded)
          (record s.cookie_options { max_age = ttl_to_max_age s.ttl })
          w
        ≡ ok w'
      → save_payload codec s session p w ≡ (over (holding s session encoded) w', ok tt)
  unfolding save_payload write
  saved_text session p encoded w w' full m h = rw (full, m) (rw (h, write) refl)

  consume_found :
      (session : Session) (w : ResponseWriter) (p : Payload) (state : Text) (t : Time)
      (e : PayloadState) (pc : PayloadCorrelation)
      → state ≢ []
      → decode_payload codec (lookup s.payload_key session.values) ≡ ok p
      → lookup state p.states ≡ some e
      → is_expired s.ttl e t ≡ false
      → e.correlation ≡ some pc
      → (save_payload codec s session (drop state p) w).1 ≡ ok tt
      → consume_correlation codec s t (over session w) state
        ≡ ((save_payload codec s session (drop state p) w).0, ok (some (from_payload pc)))
  unfolding consume_correlation consume_entry
  consume_found session w p state t e pc ne read hit fresh has saved =
      let named : (state == []) ≡ false = ground (arith, eq_iff state []) in
      rw named
        (opened-over session w p _ _ read ∙ rw hit (rw (fresh, has) (rw (saved, then_return) refl)))

  -- A callback round trip by the cookie. A correlation that is saved is consumed on a request that
  -- carries the cookie of that response, while it has not expired: without the client's identifier and
  -- secret, and with its times cut to whole seconds. The session layer takes both responses, and its
  -- JSON keeps a payload but for the order of its maps.
  pub consume-save_cookie :
      (now t : Time) (session : Session) (w w' w2 : ResponseWriter) (state encoded : Text)
      (c : CallbackCorrelation) (current decoded : Payload)
      → state ≢ []
      → decode_payload codec (lookup s.payload_key session.values) ≡ ok current
      → codec.marshal (
          versioned (
            put state
              (saved_entry (state_or_zero (entry_at state current)) (stamped now c))
              current))
        ≡ some encoded
      → codec.save s.session_name
          (holding s session encoded)
          (record s.cookie_options { max_age = ttl_to_max_age s.ttl })
          w
        ≡ ok w'
      → codec.unmarshal encoded ≡ some decoded
      → Same
          (versioned (
            put state
              (saved_entry (state_or_zero (entry_at state current)) (stamped now c))
              current))
          decoded
      → is_expired s.ttl (saved_entry (state_or_zero (entry_at state current)) (stamped now c)) t
        ≡ false
      → (save_payload codec s (holding s session encoded) (drop state decoded) w2).1 ≡ ok tt
      → (save_correlation codec s now (over session w) state c
          ≡ (over (holding s session encoded) w', ok tt))
        × ((consume_correlation codec s t (over (holding s session encoded) w2) state).1
            ≡ ok (some (carried (stamped now c))))
  unfolding save_correlation
  consume-save_cookie now t session w w' w2 state encoded c current decoded ne read made sent back
        same fresh rewritten =
      let entry = saved_entry (state_or_zero (entry_at state current)) (stamped now c) in
      let named : (state == []) ≡ false = ground (arith, eq_iff state []) in
      let hit = lookup-insert_self state entry current.states in
      let there : SameEntry (some entry) (lookup state decoded.states) =
        rw (sym hit) (same.entries state) in
      let (f, found, like, aged) = SameEntry-some entry (lookup state decoded.states) there in
      let gone =
        consume_found (holding s session encoded) w2 decoded state t f (to_payload (stamped now c))
          ne (decode_holding session encoded decoded back (rw (sym same.version) refl)) found
          (same_expiry s entry f t like aged ∙ fresh) (sym like ∙ unfold saved_entry in refl)
          rewritten in
      (
        rw named (
            opened-over session w current _ _ read
            ∙ saved_text session (put state entry current) encoded w w'
                (insert_full state entry current.states) made sent),
        ap (λ x. x.1) gone ∙ ap (λ y. ok (some y)) (from_payload-to_payload (stamped now c)),
      )

  consume_missing :
      (session : Session) (w : ResponseWriter) (p : Payload) (state : Text) (t : Time)
      → state ≢ []
      → decode_payload codec (lookup s.payload_key session.values) ≡ ok p
      → lookup state p.states ≡ none
      → consume_correlation codec s t (over session w) state ≡ (over session w, ok none)
  unfolding consume_correlation
  consume_missing session w p state t ne read miss =
      let named : (state == []) ≡ false = ground (arith, eq_iff state []) in
      rw named (opened-over session w p _ _ read ∙ rw miss refl)

  SameEntry-none : (o : Option PayloadState) → SameEntry none o → o ≡ none
  SameEntry-none none h = refl
  SameEntry-none (some f) h = absurd h

  written_session :
      (session : Session) (max_age : ℤ) (w : ResponseWriter) (clearing : Bool)
      → (write codec s session max_age w clearing).0.req ≡ attached session
  unfolding write
  written_session session max_age w clearing =
      elim (Except-cases
        (codec.save s.session_name session (record s.cookie_options { max_age = max_age }) w)) [
          | inl (w', q) ↦ rw (q, write) refl
          | inr (no_cookie, q) ↦ rw (q, write) refl
          | inr (failed, q) ↦ rw (q, write) refl
        ]

  Same-empty :
      (p : Payload)
      → is_empty p.states ≡ true
      → Same (versioned p) (record { version = payload_version; states = [] })
  unfolding lookup
  Same-empty p none_left = record {
    version = refl;
    entries =
        λ state. let nothing : p.states ≡ [] = is_empty-nil p.states none_left in rw nothing tt;
  }

  -- What a payload that is saved is read back as, where JSON keeps it.
  saved-Same :
      (session session' : Session) (p : Payload) (w w' : ResponseWriter)
      → ((encoded : Text)
          → codec.marshal (versioned p) ≡ some encoded
          → (q : Payload) × (codec.unmarshal encoded ≡ some q) × Same (versioned p) q)
      → save_payload codec s session p w ≡ (over session' w', ok tt)
      → (q : Payload) × (decode_payload codec (lookup s.payload_key session'.values) ≡ ok q)
        × Same (versioned p) q
  unfolding save_payload
  saved-Same session session' p w w' json h = elim (Bool-cases (is_empty p.states)) [
    | inl none_left ↦
        let h' = rw (none_left, save_payload) at h in
        let cleared : Session = record { values = erase s.payload_key session.values } in
        let same : cleared ≡ session' =
          ap session_of (sym (written_session cleared (negsuc 0) w true) ∙ ap (λ x. x.0.req) h') in
        (
          record { version = payload_version; states = [] },
          subst
              (λ x.
                decode_payload codec (lookup s.payload_key x.values)
                ≡ ok (record { version = payload_version; states = [] }))
              same
              (unfold decode_payload in rw (lookup-erase_self s.payload_key session.values) refl),
          Same-empty p none_left,
        )
    | inr some_left ↦ elim (Option-cases (codec.marshal (versioned p))) [
      | inl m ↦ let h' = rw (some_left, m, save_payload) at h in absurd (ground arith)
      | inr (encoded, m) ↦
          let h' = rw (some_left, m, save_payload) at h in
          let (q, back, like) = json encoded m in
          let same : holding s session encoded ≡ session' = ap session_of (
            sym (written_session (holding s session encoded) (ttl_to_max_age s.ttl) w false)
            ∙ ap (λ x. x.0.req) h') in
          (
            q,
            subst (λ x. decode_payload codec (lookup s.payload_key x.values) ≡ ok q) same
                (decode_holding session encoded q back (rw (sym like.version) refl)),
            like,
          )
    ]
  ]

  -- The consumption lives in the cookie alone. A consumption whose response can be written leaves the
  -- session with the payload without the state on the response, or without a payload if no state is left,
  -- and returns the correlation. A request with that session finds the state unknown, at any time; but
  -- one with the session as it was before is handed the same correlation again, until that has expired.
  -- JSON keeps what is written of the payload but for the order of its maps.
  pub consume_replay :
      (session session' session2 : Session) (w w' w2 w2' w3 : ResponseWriter) (p : Payload)
      (state : Text) (t t' t'' : Time) (e : PayloadState) (pc : PayloadCorrelation)
      → state ≢ []
      → decode_payload codec (lookup s.payload_key session.values) ≡ ok p
      → lookup state p.states ≡ some e
      → e.correlation ≡ some pc
      → is_expired s.ttl e t ≡ false
      → is_expired s.ttl e t' ≡ false
      → save_payload codec s session (drop state p) w ≡ (over session' w', ok tt)
      → save_payload codec s session (drop state p) w2 ≡ (over session2 w2', ok tt)
      → ((encoded : Text)
          → codec.marshal (versioned (drop state p)) ≡ some encoded
          → (q : Payload) × (codec.unmarshal encoded ≡ some q) × Same (versioned (drop state p)) q)
      → (consume_correlation codec s t (over session w) state
          ≡ (over session' w', ok (some (from_payload pc))))
        × (consume_correlation codec s t'' (over session' w3) state ≡ (over session' w3, ok none))
        × (consume_correlation codec s t' (over session w2) state
            ≡ (over session2 w2', ok (some (from_payload pc))))
  consume_replay session session' session2 w w' w2 w2' w3 p state t t' t'' e pc ne read hit has
        fresh fresh' saved saved2 json =
      let (q, read', same) = saved-Same session session' (drop state p) w w' json saved in
      let there : SameEntry none (lookup state q.states) =
        rw (sym (lookup-erase_self state p.states)) (same.entries state) in
      let handed : Exchange × Except CookieError (Unit {0})
          → Exchange × Except CookieError (Option CallbackCorrelation) =
        λ x. (x.0, ok (some (from_payload pc))) in
      (
        consume_found session w p state t e pc ne read hit fresh has (ap (λ x. x.1) saved)
            ∙ ap handed saved,
        consume_missing session' w3 q state t'' ne read'
            (SameEntry-none (lookup state q.states) there),
        consume_found session w2 p state t' e pc ne read hit fresh' has (ap (λ x. x.1) saved2)
            ∙ ap handed saved2,
      )
