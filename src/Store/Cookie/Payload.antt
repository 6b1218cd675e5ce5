-- ===== src/Store/Cookie/Payload.antt =====
-- rp/store/cookie/store.go: the payload of the session cookie, which keeps times in whole seconds.
use lanyard.Base.{
  ℕ, zero, suc, ◌+◌, ◌*◌, ◌/◌, Bool, not, ◌&&◌, ◌||◌, Option, none, some, List, [], ◌∷◌, Text, ltb,
  eqb, if◌then◌else◌,
}
use lanyard.Base.Int.{ℤ, pos, negsuc, sub_ℕ}
use lanyard.Base.Maps.{Dict}
use lanyard.Base.Base64.Decode.{decode_string}
use lanyard.Http.{Time, Duration, second}
use lanyard.Store.{CallbackCorrelation}

-- `payloadCorrelation`
pub record PayloadCorrelation : Type 0 where
  pub nonce : Text
  pub code_verifier : Text
  pub created_at : ℤ
  pub expiry : ℤ
  pub issuer : Text
  pub request_uri : Text
  pub used_par : Bool
  pub resources : List Text
  pub user_info_token_transport : Text

-- `payloadState`; a nil map of values is the empty map.
pub record PayloadState : Type 0 where
  pub correlation : Option PayloadCorrelation
  pub values : Dict Text
  pub created_at : ℤ

pub record Payload : Type 0 where
  pub version : ℤ
  pub states : Dict PayloadState

abbrev pub payload_version : ℤ
payload_version = pos 1

-- `payloadState{}`, what a missing key reads as
abbrev pub zero_state : PayloadState
zero_state = record { correlation = none; values = []; created_at = pos 0 }

abbrev pub state_or_zero : Option PayloadState → PayloadState
state_or_zero none = zero_state
state_or_zero (some e) = e

-- `Time.Unix`: the whole seconds since the epoch, 62135596800 seconds after Go's zero time.
abbrev pub epoch : ℕ
epoch = 62135596800

unfoldable pub unix_seconds : Time → ℤ
unix_seconds t = sub_ℕ (t / second) epoch

unfoldable pub unix_to_time : ℤ → Time
unix_to_time (pos zero) = 0
unix_to_time (pos (suc n)) = (suc n + epoch) * second
unix_to_time (negsuc n) = 0

unfoldable pub to_payload : CallbackCorrelation → PayloadCorrelation
to_payload c = record {
  nonce = c.nonce;
  code_verifier = c.code_verifier;
  created_at = unix_seconds c.created_at;
  expiry = unix_seconds c.expiry;
  issuer = c.issuer;
  request_uri = c.request_uri;
  used_par = c.used_par;
  resources = c.resources;
  user_info_token_transport = c.user_info_token_transport;
}

-- The client's identifier and secret are not in the payload.
unfoldable pub from_payload : PayloadCorrelation → CallbackCorrelation
from_payload c = record {
  nonce = c.nonce;
  code_verifier = c.code_verifier;
  created_at = unix_to_time c.created_at;
  expiry = unix_to_time c.expiry;
  issuer = c.issuer;
  client_id = [];
  client_secret = [];
  request_uri = c.request_uri;
  used_par = c.used_par;
  resources = c.resources;
  user_info_token_transport = c.user_info_token_transport;
}

-- When an entry was created: by its correlation, or else by itself.
unfoldable pub created : PayloadState → Time
created e = elim e.correlation [
  | none ↦ unix_to_time e.created_at
  | some c ↦
      let own = unix_to_time c.created_at in if eqb own 0 then unix_to_time e.created_at else own
]

unfoldable pub expiry_of : PayloadState → Time
expiry_of e = elim e.correlation [ none ↦ 0 | some c ↦ unix_to_time c.expiry ]

-- `isExpired`
unfoldable pub is_expired : Duration → PayloadState → Time → Bool
is_expired ttl e now =
    not (eqb (created e) 0) && ltb (created e + ttl) now
    || not (eqb (expiry_of e) 0) && ltb (expiry_of e) now

-- `decodeValues`: the values, if each of them decodes.
unfoldable pub decode_values : Dict Text → Option (Dict (List ℕ))
decode_values [] = some []
decode_values ((k, raw) ∷ m) = elim (decode_string raw) [
  | none ↦ none
  | some v ↦ elim (decode_values m) [ none ↦ none | some rest ↦ some ((k, v) ∷ rest) ]
]
