-- ===== src/Store/Cookie/Operations.antt =====
-- rp/store/cookie/store.go: construction, and the operations on correlations and whole states.
use lanyard.Base.{
  Bool, true, not, ◌&&◌, Option, none, some, List, [], ◌∷◌, Text, codes, ◌==◌, eqb, has_prefix,
  if◌then◌else◌, Except, ok, err, ◌>>◌, fail_if,
}
use lanyard.Base.Int.{pos, negsuc}
use lanyard.Base.Maps.{lookup, insert, erase}
use lanyard.Http.{Time, Duration, ResponseWriter}
use lanyard.Store.{CallbackCorrelation}
use lanyard.Store.Cookie.Payload.{
  Payload, PayloadState, state_or_zero, unix_seconds, to_payload, from_payload, is_expired,
}
use lanyard.Store.Cookie.Session.{
  Sessions, Session, Store, CookieOptions, SameSite, lax, CookieError, no_writer, empty_state,
  no_auth_key, no_session_name, no_payload_key, bad_ttl, bad_attributes, Exchange, require_mutable,
  load_payload, save_payload, ttl_to_max_age,
}

abbrev pub default_session_name : Text
default_session_name = codes "__Host-lanyard_rp_state"

abbrev pub default_payload_key : Text
default_payload_key = codes "payload"

abbrev pub default_ttl : Duration
default_ttl = 600000000000

-- `validateSessionCookieAttributes`
unfoldable pub validate_attributes : Text → CookieOptions → Except CookieError (Unit {0})
validate_attributes name o = do
  fail_if (has_prefix name (codes "__Host-") && not o.secure) bad_attributes
  fail_if (has_prefix name (codes "__Host-") && not (o.path == codes "/")) bad_attributes
  fail_if (has_prefix name (codes "__Host-") && not (o.domain == [])) bad_attributes
  fail_if (has_prefix name (codes "__Secure-") && not o.secure) bad_attributes

-- The store before its options.
unfoldable pub initial : Store
initial = record {
  session_name = default_session_name;
  payload_key = default_payload_key;
  ttl = default_ttl;
  cookie_options = record {
    path = codes "/";
    domain = [];
    max_age = pos 0;
    secure = true;
    http_only = true;
    same_site = lax;
  };
}

-- The options that change the store; WithCookieStore and the clock are elsewhere.
pub data CookieOption : Type 0 where
  with_session_name with_cookie_path with_cookie_domain : Text → CookieOption
  with_ttl : Duration → CookieOption
  with_secure with_http_only : Bool → CookieOption
  with_same_site : SameSite → CookieOption
  with_session_options : (CookieOptions → CookieOptions) → CookieOption

unfoldable pub apply_option : Store → CookieOption → Store
apply_option s (with_session_name name) = if name == [] then s else record s { session_name = name }
apply_option s (with_ttl ttl) = if eqb ttl 0 then s else record s { ttl = ttl }
apply_option s (with_cookie_path path) =
    if path == [] then s else record s { cookie_options = record s.cookie_options { path = path } }
apply_option s (with_cookie_domain domain) = record s {
  cookie_options = record s.cookie_options { domain = domain };
}
apply_option s (with_secure b) = record s {
  cookie_options = record s.cookie_options { secure = b };
}
apply_option s (with_http_only b) = record s {
  cookie_options = record s.cookie_options { http_only = b };
}
apply_option s (with_same_site m) = record s {
  cookie_options = record s.cookie_options { same_site = m };
}
apply_option s (with_session_options f) = record s { cookie_options = f s.cookie_options }

unfoldable pub apply_options : Store → List CookieOption → Store
apply_options s [] = s
apply_options s (o ∷ os) = apply_options (apply_option s o) os

unfoldable pub new : Text → List CookieOption → Except CookieError Store
new auth_key options = do
  fail_if (auth_key == []) no_auth_key
  let s = apply_options initial options
  fail_if (s.session_name == []) no_session_name
  fail_if (s.payload_key == []) no_payload_key
  fail_if (eqb s.ttl 0) bad_ttl
  let o = record s.cookie_options { max_age = ttl_to_max_age s.ttl }
  validate_attributes s.session_name o
  ok (record s { cookie_options = o })

-- An operation: the exchange afterwards, and its result.
abbrev pub Result : Type 0 → Type 0
Result A = Exchange × Except CookieError A

abbrev pub entry_at : Text → Payload → Option PayloadState
entry_at state p = lookup state p.states

abbrev pub put : Text → PayloadState → Payload → Payload
put state e p = record p { states = insert state e p.states }

abbrev pub drop : Text → Payload → Payload
drop state p = record p { states = erase state p.states }

-- After a save: the value, unless the save failed.
abbrev pub then_return : {A : Type 0} → Result (Unit {0}) → A → Result A
then_return (x, ok u) a = (x, ok a)
then_return (x, err e) a = (x, err e)

-- The entry that SaveCorrelation writes over `old`.
unfoldable pub saved_entry : PayloadState → CallbackCorrelation → PayloadState
saved_entry old c = record old {
  correlation = some (to_payload c);
  created_at = elim old.created_at [
    | pos n ↦ if eqb n 0 then unix_seconds c.created_at else pos n
    | negsuc n ↦ negsuc n
  ];
}

abbrev pub stamped : Time → CallbackCorrelation → CallbackCorrelation
stamped now c = record c { created_at = if eqb c.created_at 0 then now else c.created_at }

module _ (codec : Sessions) where
  -- What every change starts with: the guard on the state, on request and writer, and the payload.
  unfoldable pub opened :
      {A : Type 0}
      → Store
      → Exchange
      → Bool
      → CookieError
      → (Session → Payload → ResponseWriter → Result A)
      → Result A
  opened s x bad problem k = if bad then (x, err problem) else elim (require_mutable x) [
    | err e ↦ (x, err e)
    | ok u ↦ elim (load_payload codec s x) [
      | err e ↦ (x, err e)
      | ok (session, current) ↦ elim x.w [
        | none ↦ (x, err no_writer)
        | some w ↦ k session current w
      ]
    ]
  ]

  unfoldable pub save_correlation :
      Store → Time → Exchange → Text → CallbackCorrelation → Result (Unit {0})
  save_correlation s now x state correlation =
      opened s x (state == []) empty_state (λ session current w.
        save_payload codec s session
          (put state
            (saved_entry (state_or_zero (entry_at state current)) (stamped now correlation))
            current)
          w)

  -- ConsumeCorrelation once the entry is found.
  unfoldable pub consume_entry :
      Store
      → Time
      → Exchange
      → Text
      → Session
      → Payload
      → ResponseWriter
      → PayloadState
      → Result (Option CallbackCorrelation)
  consume_entry s now x state session current w entry =
      if is_expired s.ttl entry now
      then then_return (save_payload codec s session (drop state current) w) none
      else elim entry.correlation [
        | none ↦ (x, ok none)
        | some c ↦
            then_return (save_payload codec s session (drop state current) w)
              (some (from_payload c))
      ]

  unfoldable pub consume_correlation :
      Store → Time → Exchange → Text → Result (Option CallbackCorrelation)
  consume_correlation s now x state = opened s x (state == []) empty_state (λ session current w.
      elim (entry_at state current) [
        | none ↦ (x, ok none)
        | some entry ↦ consume_entry s now x state session current w entry
      ])

  unfoldable pub delete_state : Store → Exchange → Text → Result (Unit {0})
  delete_state s x state =
      opened s x (state == []) empty_state
        (λ session current w. save_payload codec s session (drop state current) w)
