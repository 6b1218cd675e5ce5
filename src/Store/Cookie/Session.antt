-- ===== src/Store/Cookie/Session.antt =====
-- rp/store/cookie/store.go: loading and saving the session that holds the payload. The session is
-- gorilla/sessions', whose store and encoding are the parameter `Sessions`, with encoding/json.
use lanyard.Base.{
  ◌+◌, ◌-◌, ◌/◌, Bool, true, false, not, Option, none, some, [], Text, ltb, eqb, is_empty,
  if◌then◌else◌, Except, ok, err, ◌>>=◌, ◌>>◌, fail_if, or_fail,
}
use lanyard.Base.Int.{ℤ, pos, negsuc}
use lanyard.Base.Maps.{Dict, lookup, insert, erase}
use lanyard.Http.{Duration, second, ResponseWriter}
use lanyard.Store.Cookie.Payload.{Payload, payload_version}

pub data CookieError : Type 0 where
  no_request no_writer unreadable_session bad_payload_type bad_payload : CookieError
  unsupported_version not_encoded not_saved empty_state empty_name bad_value : CookieError
  no_auth_key no_session_name no_payload_key bad_ttl bad_attributes : CookieError

-- What a session holds under a key: a string, a []byte, or a value of another type.
pub data Raw : Type 0 where
  text : Text → Raw
  bytes : Text → Raw
  other : Raw

-- *sessions.Session, as its values under string keys
pub record Session : Type 0 where
  pub values : Dict Raw

pub data SameSite : Type 0 where
  default_mode lax strict none_mode : SameSite

-- sessions.Options
pub record CookieOptions : Type 0 where
  pub path : Text
  pub domain : Text
  pub max_age : ℤ
  pub secure : Bool
  pub http_only : Bool
  pub same_site : SameSite

pub record Store : Type 0 where
  pub session_name : Text
  pub payload_key : Text
  pub ttl : Duration
  pub cookie_options : CookieOptions

-- Why `Save` fails: http.ErrNoCookie, or another error.
pub data SaveError : Type 0 where
  no_cookie failed : SaveError

pub record Sessions : Type 0 where
  -- (*sessions.Session).Save, for a session of the given name and options
  pub save : Text → Session → CookieOptions → ResponseWriter → Except SaveError ResponseWriter
  pub marshal : Payload → Option Text
  pub unmarshal : Text → Option Payload

-- The request of an operation: nil, one whose session CookieStore.Get cannot read, or one with the
-- session that Get returns for it. A request keeps that session, so a second operation on the same
-- request finds what the first has put there.
pub data Attached : Type 0 where
  no_request unreadable : Attached
  attached : Session → Attached

pub record Exchange : Type 0 where
  pub req : Attached
  pub w : Option ResponseWriter

-- `requireMutableHTTP`
unfoldable pub require_mutable : Exchange → Except CookieError (Unit {0})
require_mutable x = elim x.req [
  | no_request ↦ err CookieError.no_request
  | unreadable ↦ elim x.w [ none ↦ err no_writer | some w ↦ ok tt ]
  | attached s ↦ elim x.w [ none ↦ err no_writer | some w ↦ ok tt ]
]

-- `ttlToMaxAge`, with exact seconds: the code's float64 has them up to some hundred days.
unfoldable pub ttl_to_max_age : Duration → ℤ
ttl_to_max_age ttl =
    let seconds = (ttl + (second - 1)) / second in if ltb seconds 1 then pos 1 else pos seconds

abbrev pub is_supported : ℤ → Bool
is_supported (pos n) = eqb n 1
is_supported (negsuc n) = false

module _ (codec : Sessions) where
  open codec use {save, marshal, unmarshal}

  -- The decoding of a payload whose text is given.
  unfoldable pub decode_text : Text → Except CookieError Payload
  decode_text encoded = do
    current ← or_fail (unmarshal encoded) bad_payload
    fail_if (not (is_supported current.version)) unsupported_version
    ok current

  -- `decodePayload`
  unfoldable pub decode_payload : Option Raw → Except CookieError Payload
  decode_payload none = ok (record { version = payload_version; states = [] })
  decode_payload (some (text t)) = decode_text t
  decode_payload (some (bytes t)) = decode_text t
  decode_payload (some other) = err bad_payload_type

  -- `loadSessionPayload`
  unfoldable pub load_payload : Store → Exchange → Except CookieError (Session × Payload)
  load_payload s x = elim x.req [
    | no_request ↦ err CookieError.no_request
    | unreadable ↦ err unreadable_session
    | attached session ↦ do
      current ← decode_payload (lookup s.payload_key session.values)
      ok (session, current)
  ]

  -- A save under given options; the session object is changed before it, and so also where it fails.
  unfoldable pub write :
      Store → Session → ℤ → ResponseWriter → Bool → Exchange × Except CookieError (Unit {0})
  write s session max_age w clearing =
      elim (save s.session_name session (record s.cookie_options { max_age = max_age }) w) [
        | ok w' ↦ (record { req = attached session; w = some w' }, ok tt)
        | err no_cookie ↦ (
          record { req = attached session; w = some w },
          if clearing then ok tt else err not_saved,
        )
        | err failed ↦ (record { req = attached session; w = some w }, err not_saved)
      ]

  -- `saveSessionPayload`: an empty payload clears the cookie.
  unfoldable pub save_payload :
      Store → Session → Payload → ResponseWriter → Exchange × Except CookieError (Unit {0})
  save_payload s session current w =
      if is_empty current.states
      then write s (record { values = erase s.payload_key session.values }) (negsuc 0) w true
      else elim (marshal (record current { version = payload_version })) [
        | none ↦ (record { req = attached session; w = some w }, err not_encoded)
        | some encoded ↦
            write s (record { values = insert s.payload_key (text encoded) session.values })
              (ttl_to_max_age s.ttl) w false
      ]
