-- ===== src/Store/Cookie/Tests.antt =====
-- Runs of the store of rp/store/cookie/store.go on small inputs.
use mathlib.Core.Path.{subst}
use lanyard.Base.{
  Text, if◌then◌else◌, ◌≡◌, refl, inr, arith, ◌≤◌, ◌≢◌, false, Option, none, some, [], ◌∷◌, codes,
  ◌==◌, ne_of_==, ok, ◌+◌, ◌*◌, has_prefix,
}
use lanyard.Base.Int.{pos}
use lanyard.Base.Maps.{lookup, insert, erase}
use lanyard.Http.{Time, minute, second}
use lanyard.Store.{CallbackCorrelation}
use lanyard.Store.Cookie.Payload.{
  Payload, PayloadState, PayloadCorrelation, zero_state, to_payload, from_payload, is_expired,
  created, expiry_of, unix_seconds, unix_to_time,
}
use lanyard.Store.Cookie.Session.{
  Store, Session, Sessions, decode_payload, decode_text, save_payload, write, ttl_to_max_age,
}
use lanyard.Store.Cookie.Operations.{
  with_session_name, with_ttl, new, initial, apply_option, apply_options, validate_attributes, put,
  saved_entry, stamped, save_correlation, consume_correlation,
}
use lanyard.Store.Cookie.Values.{valued_entry, save_value, load_value}
use lanyard.Store.Cookie.Carried.{carried}
use lanyard.Store.Cookie.RoundTrip.{
  Same, SameEntry, holding, over, consume-save_cookie, consume_replay,
}
use lanyard.Store.Cookie.Kept.{load-save_value_cookie}
use lanyard.Store.Cookie.Attributes.{Prefixed, new-Prefixed}

abbrev correlation : CallbackCorrelation
correlation = record {
  nonce = codes "n";
  code_verifier = codes "v";
  created_at = 0;
  expiry = 0;
  issuer = codes "op";
  client_id = codes "me";
  client_secret = codes "secret";
  request_uri = [];
  used_par = false;
  resources = [];
  user_info_token_transport = codes "header";
}

-- Some seconds after the epoch.
abbrev start : Time
start = 63900000000 * second

abbrev store : Store
store = record {
  session_name = codes "__Host-s";
  payload_key = codes "p";
  ttl = minute;
  cookie_options = initial.cookie_options;
}

-- Sessions that keep one payload, under the text "x".
abbrev keeping : Payload → Sessions
keeping p = record {
  save = λ name session options w. ok w;
  marshal = λ q. some (codes "x");
  unmarshal = λ t. some p;
}

abbrev no_session : Session
no_session = record { values = [] }

abbrev empty : Payload
empty = record { version = pos 1; states = [] }

SameEntry-refl : (o : Option PayloadState) → SameEntry o o
SameEntry-refl none = tt
SameEntry-refl (some e) = (refl, refl, λ name. refl)

Same-refl : (p : Payload) → Same p p
Same-refl p = record { version = refl; entries = λ state. SameEntry-refl (lookup state p.states) }

abbrev saved : Payload
saved = put (codes "s") (saved_entry zero_state (stamped start correlation)) empty

consume-save_cookie_example :
    (save_correlation (keeping saved) store start (over no_session []) (codes "s") correlation
      ≡ (over (holding store no_session (codes "x")) [], ok tt))
    × ((consume_correlation
          (keeping saved)
          store
          (start + second)
          (over (holding store no_session (codes "x")) [])
          (codes "s")).1
        ≡ ok (some (carried (stamped start correlation))))
unfolding ◌==◌ decode_payload lookup insert erase saved_entry to_payload is_expired created
    expiry_of unix_seconds unix_to_time save_payload write
consume-save_cookie_example =
    consume-save_cookie (keeping saved) store start (start + second) no_session [] [] [] (codes "s")
      (codes "x") correlation empty saved (ne_of_== (codes "s") [] refl) refl refl refl refl
      (Same-refl saved) refl refl

abbrev kept : PayloadCorrelation
kept = to_payload (stamped start correlation)

abbrev held : PayloadState
held = record { correlation = some kept; values = []; created_at = pos 1764403200 }

-- Two states, and what is left without the first.
abbrev rest : Payload
rest = record { version = pos 1; states = (codes "t", held) ∷ [] }

abbrev holding_two : Payload
holding_two = record { version = pos 1; states = (codes "s", held) ∷ (codes "t", held) ∷ [] }

-- Sessions that write the rest as the text "y" and read "x" as both states.
abbrev two : Sessions
two = record {
  save = λ name session options w. ok w;
  marshal = λ q. some (codes "y");
  unmarshal = λ t. if t == codes "x" then some holding_two else some rest;
}

abbrev before : Session
before = holding store no_session (codes "x")

abbrev after : Session
after = holding store before (codes "y")

rest_read :
    (encoded : Text)
    → two.marshal rest ≡ some encoded
    → (q : Payload) × (two.unmarshal encoded ≡ some q) × Same rest q
unfolding ◌==◌
rest_read encoded m =
    let same : codes "y" ≡ encoded = cc in
    (rest, subst (λ x. two.unmarshal x ≡ some rest) same refl, Same-refl rest)

consume_replay_example :
    (consume_correlation two store (start + second) (over before []) (codes "s")
      ≡ (over after [], ok (some (from_payload kept))))
    × (consume_correlation two store start (over after []) (codes "s") ≡ (over after [], ok none))
    × (consume_correlation two store (start + 2 * second) (over before []) (codes "s")
        ≡ (over after [], ok (some (from_payload kept))))
unfolding ◌==◌ decode_payload lookup insert erase to_payload is_expired created expiry_of
    unix_seconds unix_to_time save_payload write decode_text
consume_replay_example =
    consume_replay two store before after after [] [] [] [] [] holding_two (codes "s")
      (start + second) (start + 2 * second) start held kept (ne_of_== (codes "s") [] refl) refl refl
      refl refl refl refl refl rest_read

abbrev valued : Payload
valued = put (codes "s") (valued_entry store start (codes "k") (7 ∷ []) zero_state) empty

load-save_value_cookie_example :
    (save_value (keeping valued) store start (over no_session []) (codes "s") (codes "k") (7 ∷ [])
      ≡ (over (holding store no_session (codes "x")) [], ok tt))
    × (load_value
          (keeping valued)
          store
          (start + second)
          (over (holding store no_session (codes "x")) [])
          (codes "s")
          (codes "k")
        ≡ ok (some (7 ∷ [])))
unfolding ◌==◌ decode_payload lookup insert valued_entry is_expired created expiry_of unix_seconds
    unix_to_time
load-save_value_cookie_example =
    load-save_value_cookie (keeping valued) store start (start + second) no_session [] [] []
      (codes "s") (codes "k") (codes "x") (7 ∷ []) empty valued (ne_of_== (codes "s") [] refl)
      (ne_of_== (codes "k") [] refl) refl refl refl refl refl (Same-refl valued) (omega arith)
      (inr refl)

abbrev made : Store
made = record {
  session_name = codes "__Secure-s";
  payload_key = codes "payload";
  ttl = minute;
  cookie_options = record initial.cookie_options { max_age = pos 60 };
}

new-Prefixed_example :
    (codes "key" ≢ [])
    × (made.session_name ≢ [])
    × (made.payload_key ≢ [])
    × (1 ≤ made.ttl)
    × (made.cookie_options.max_age ≡ ttl_to_max_age made.ttl)
    × Prefixed made.session_name made.cookie_options
unfolding new initial apply_options apply_option validate_attributes has_prefix ttl_to_max_age ◌==◌
new-Prefixed_example =
    new-Prefixed (codes "key") (with_session_name (codes "__Secure-s") ∷ with_ttl minute ∷ []) made
      refl
