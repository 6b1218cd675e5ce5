-- ===== src/Store/Memory.antt =====
-- rp/store/memory/store.go. Every operation holds the mutex from its first read of the map to its
-- last write, but for the two loads, which are two steps each. A clock reading of the source is an
-- argument here, one for each call of `currentTime`. A nil map of values is the empty map: each
-- write to one is preceded by the code's `make`.
pub mod Values
pub mod State
pub mod Stored
pub mod Sweep
pub mod Oldest
pub mod Eviction
pub mod Callbacks
pub mod Edit
pub mod Invariant
pub mod Races
pub mod Implements
mod Tests
use lanyard.Base.{
  ℕ, zero, suc, ◌+◌, ◌/◌, Option, none, some, List, [], ◌∷◌, ◌++◌, Bool, true, false, not, ◌&&◌,
  ◌||◌, Text, codes, ◌==◌, ltb, eqb, if◌then◌else◌, length, is_empty, Except, ok, err,
}
use lanyard.Base.Maps.{Dict, lookup, insert, erase}
use lanyard.Base.Base64.{encode}
use lanyard.Http.{Time, Duration, second, minute, Request, SetCookie, ResponseWriter}
use lanyard.Store.{
  CallbackCorrelation, Bytes, StateScope, StoreError, empty_state, empty_name, binding_failed,
}

pub record StateEntry : Type 0 where
  pub correlation : CallbackCorrelation
  pub values : Dict Bytes
  pub created_at : Time
  pub binding : Text

pub record Store : Type 0 where
  pub ttl : Duration
  pub items : Dict StateEntry

abbrev pub default_ttl : Duration
default_ttl = 600000000000

abbrev pub max_entries : ℕ
max_entries = 4096

abbrev pub binding_cookie_name : Text
binding_cookie_name = codes "__Host-lanyard_state_binding"

-- `none` is a time-to-live below 0, which is treated like 0.
unfoldable pub new : Option Duration → Store
new none = record { ttl = default_ttl; items = [] }
new (some ttl) = record { ttl = if eqb ttl 0 then default_ttl else ttl; items = [] }

abbrev pub zero_correlation : CallbackCorrelation
zero_correlation = record {
  nonce = [];
  code_verifier = [];
  created_at = 0;
  expiry = 0;
  issuer = [];
  client_id = [];
  client_secret = [];
  request_uri = [];
  used_par = false;
  resources = [];
  user_info_token_transport = [];
}

abbrev pub zero_entry : StateEntry
zero_entry = record { correlation = zero_correlation; values = []; created_at = 0; binding = [] }

-- `s.items[state]`, which is the zero entry where the key is missing.
abbrev pub entry_or_zero : Option StateEntry → StateEntry
entry_or_zero none = zero_entry
entry_or_zero (some e) = e

unfoldable pub is_expired : Duration → StateEntry → Time → Bool
is_expired ttl entry now =
    let c = entry.correlation in
    let created = if eqb c.created_at 0 then entry.created_at else c.created_at in
    not (eqb created 0) && ltb (created + ttl) now || not (eqb c.expiry 0) && ltb c.expiry now

unfoldable pub is_zero_correlation : CallbackCorrelation → Bool
is_zero_correlation c =
    is_empty c.nonce
    && is_empty c.code_verifier
    && eqb c.created_at 0
    && eqb c.expiry 0
    && is_empty c.issuer
    && is_empty c.client_id
    && is_empty c.client_secret
    && is_empty c.request_uri
    && not c.used_par
    && is_empty c.resources
    && is_empty c.user_info_token_transport

-- `r.Cookie(bindingCookieName)`, or the empty text.
unfoldable pub binding_cookie_value : Option Request → Text
binding_cookie_value none = []
binding_cookie_value (some r) = elim (lookup binding_cookie_name r.cookies) [
  | none ↦ []
  | some value ↦ value
]

-- The first loop of `sweepLocked`.
unfoldable pub drop_expired : Duration → Time → Dict StateEntry → Dict StateEntry
drop_expired ttl now [] = []
drop_expired ttl now ((k, e) ∷ m) =
    let rest = drop_expired ttl now m in if is_expired ttl e now then rest else (k, e) ∷ rest

-- The inner loop of the second: the key whose entry expires first, and when.
unfoldable pub oldest : Duration → Text → Time → Dict StateEntry → Text
oldest ttl key expiry [] = key
oldest ttl key expiry ((k, e) ∷ m) =
    let first = key == [] || ltb (e.created_at + ttl) expiry in
    oldest ttl (if first then k else key) (if first then e.created_at + ttl else expiry) m

-- The second loop, on fuel: as many rounds as there are entries suffice.
unfoldable pub evict : ℕ → Duration → Dict StateEntry → Dict StateEntry
evict zero ttl m = m
evict (suc fuel) ttl m =
    let rest = evict fuel ttl (erase (oldest ttl [] 0 m) m) in
    if ltb max_entries (length m) then rest else m

unfoldable pub sweep : Duration → Time → Dict StateEntry → Dict StateEntry
sweep ttl now m = let live = drop_expired ttl now m in evict (length live) ttl live

-- The cookie that carries the binding.
unfoldable pub binding_cookie : Duration → Time → Text → SetCookie
binding_cookie ttl now binding = record {
  name = binding_cookie_name;
  value = binding;
  path = codes "/";
  expires = now + (ttl + minute);
  max_age = (ttl + minute) / second;
  http_only = true;
  secure = true;
  same_site_none = true;
}

-- The binding of a save: none without a response, else the browser's, else a new one from 32 random
-- bytes (`none`: the random source failed).
unfoldable pub choose_binding : Bool → Option Request → Option (List ℕ) → Except StoreError Text
choose_binding false r random = ok []
choose_binding true r random =
    let presented = binding_cookie_value r in
    if not (presented == [])
    then ok presented
    else elim random [ none ↦ err binding_failed | some token ↦ ok (encode token) ]

abbrev pub is_some {ℓ} : {A : Type ℓ} → Option A → Bool
is_some none = false
is_some (some a) = true

abbrev pub set_cookie : Option ResponseWriter → SetCookie → Option ResponseWriter
set_cookie none c = none
set_cookie (some w) c = some (w ++ c ∷ [])

-- The entry that a save writes over `old`.
unfoldable pub saved_entry : StateEntry → CallbackCorrelation → Text → StateEntry
saved_entry old c binding = record {
  correlation = c;
  values = old.values;
  created_at = if eqb old.created_at 0 then c.created_at else old.created_at;
  binding = binding;
}

abbrev pub stamped : Time → CallbackCorrelation → CallbackCorrelation
stamped now c = record c { created_at = if eqb c.created_at 0 then now else c.created_at }

pub record Saved : Type 0 where
  pub store : Store
  pub writer : Option ResponseWriter
  pub result : Except StoreError (Unit {0})

-- `now` is the clock at the start, `later` in the sweep.
unfoldable pub save_correlation :
    Store
    → Time
    → Time
    → Option (List ℕ)
    → Option ResponseWriter
    → Option Request
    → Text
    → CallbackCorrelation
    → Saved
save_correlation s now later random w r state correlation =
    let bound = is_some w && is_some r in
    let chosen = choose_binding bound r random in
    if state == []
    then record { store = s; writer = w; result = err empty_state }
    else elim chosen [
      | err e ↦ record { store = s; writer = w; result = err e }
      | ok binding ↦ record {
        store = record s {
          items = sweep s.ttl later (
              insert state
                (saved_entry (entry_or_zero (lookup state s.items)) (stamped now correlation)
                  binding)
                s.items);
        };
        writer = if bound then set_cookie w (binding_cookie s.ttl now binding) else w;
        result = ok tt;
      }
    ]

abbrev pub Loaded : Type 0 → Type 0
Loaded A = Store × Except StoreError (Option A)

abbrev pub remove : Store → Text → Store
remove s state = record s { items = erase state s.items }

-- `none` is the source's `false`: nothing to consume.
unfoldable pub consume_correlation :
    Store → Time → Option Request → Text → Loaded CallbackCorrelation
consume_correlation s now r state =
    if state == [] then (s, err empty_state) else elim (lookup state s.items) [
      | none ↦ (s, ok none)
      | some entry ↦
          if is_expired s.ttl entry now
          then (remove s state, ok none)
          else if not (entry.binding == []) && not (binding_cookie_value r == entry.binding)
          then (s, ok none)
          else (remove s state, ok (some entry.correlation))
    ]
