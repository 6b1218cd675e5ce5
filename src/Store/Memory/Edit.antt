-- ===== src/Store/Memory/Edit.antt =====
-- The calls on the store of rp/store/memory/store.go, and what each may do to the map.
use lanyard.Base.{
  ℕ, ◌≤◌, ◌≡◌, ◌≢◌, ◌⊎◌, inl, inr, Option, none, List, [], ◌∷◌, false, Text, eq_iff, ◌==◌, ◌&&◌,
  is_empty, Bool-cases, not, arith, Option-cases, Except-cases,
}
use lanyard.Base.Maps.{lookup, insert, erase}
use lanyard.Http.{Time, Request, ResponseWriter}
use lanyard.Store.{CallbackCorrelation, Bytes}
use lanyard.Store.Memory.{
  Store, StateEntry, choose_binding, sweep, save_correlation, consume_correlation, remove,
  binding_cookie_value, is_some, is_zero_correlation, is_expired,
}
use lanyard.Store.Memory.State.{load_state, load_state_read, load_state_finish, delete_state}
use lanyard.Store.Memory.Values.{
  save_value, load_value, load_value_read, load_value_finish, delete_value, consume_value,
  without_value, Reading, missing, expired, present,
}

-- A call with its clock readings and random bytes.
pub data Call : Type 0 where
  saves :
      Time
      → Time
      → Option (List ℕ)
      → Option ResponseWriter
      → Option Request
      → Text
      → CallbackCorrelation
      → Call
  consumes : Time → Option Request → Text → Call
  loads : Time → Text → Call
  deletes : Text → Call
  saves_value : Time → Text → Text → Bytes → Call
  loads_value : Time → Time → Text → Text → Call
  deletes_value : Text → Text → Call
  consumes_value : Time → Text → Text → Call

unfoldable pub step : Store → Call → Store
step s (saves now later random w r state c) =
    (save_correlation s now later random w r state c).store
step s (consumes now r state) = (consume_correlation s now r state).0
step s (loads now state) = (load_state s now state).0
step s (deletes state) = (delete_state s state).0
step s (saves_value now state name v) = (save_value s now state name v).0
step s (loads_value now later state name) = (load_value s now later state name).0
step s (deletes_value state name) = (delete_value s state name).0
step s (consumes_value now state name) = (consume_value s now state name).0

unfoldable pub run : Store → List Call → Store
run s [] = s
run s (c ∷ cs) = run (step s c) cs

abbrev pub put : Store → Text → StateEntry → Store
put s k e = record s { items = insert k e s.items }

abbrev pub swept_with : Store → Text → StateEntry → Time → Store
swept_with s k e now = record s { items = sweep s.ttl now (insert k e s.items) }

not_empty : (s : Text) → (s == []) ≡ false → s ≢ []
not_empty s h = ground (arith, eq_iff s [])

-- What one call may do to the map, and by how many entries it may grow it.
pub data Edit (s : Store) : ℕ → Store → Type 0 where
  same : Edit s 0 s
  removed : (k : Text) → Edit s 0 (remove s k)
  updated : (k : Text) (e : StateEntry) → k ≢ [] → lookup k s.items ≢ none → Edit s 0 (put s k e)
  added : (k : Text) (e : StateEntry) → k ≢ [] → Edit s 1 (put s k e)
  swept : (k : Text) (e : StateEntry) (now : Time) → k ≢ [] → Edit s 0 (swept_with s k e now)

save-Edit :
    (s : Store) (now later : Time) (random : Option (List ℕ)) (w : Option ResponseWriter)
    (r : Option Request) (state : Text) (c : CallbackCorrelation)
    → Edit s 0 (save_correlation s now later random w r state c).store
unfolding save_correlation
save-Edit s now later random w r state c = elim (Bool-cases (state == [])) [
  | inl e ↦ rw (e, save_correlation) same
  | inr e ↦ elim (Except-cases (choose_binding (is_some w && is_some r) r random)) [
    | inl (binding, q) ↦ rw (e, q, save_correlation) (swept state _ later (not_empty state e))
    | inr (x, q) ↦ rw (e, q, save_correlation) same
  ]
]

without_value-Edit :
    (s : Store) (state name : Text) (e : StateEntry)
    → state ≢ []
    → lookup state s.items ≢ none
    → Edit s 0 (without_value s state name e)
unfolding without_value
without_value-Edit s state name e ne hit =
    elim (Bool-cases (is_empty (erase name e.values) && is_zero_correlation e.correlation)) [
      | inl gone ↦ rw (gone, without_value) (removed state)
      | inr left ↦ rw (left, without_value) (updated state _ ne hit)
    ]

-- How many entries a call may add: a saved value may start a new one.
abbrev pub growth : Call → ℕ
growth (saves_value now state name v) = 1
growth _ = 0

delete_value-Edit : (s : Store) (state name : Text) → Edit s 0 (delete_value s state name).0
unfolding delete_value
delete_value-Edit s state name = elim (Bool-cases (state == [])) [
  | inl e ↦ rw (e, delete_value) same
  | inr e ↦ elim (Bool-cases (name == [])) [
    | inl f ↦ rw (e, f, delete_value) same
    | inr f ↦ elim (Option-cases (lookup state s.items)) [
      | inl miss ↦ rw (e, f, miss, delete_value) same
      | inr (w, hit) ↦
          rw (e, f, hit, delete_value)
            (without_value-Edit s state name w (not_empty state e) (λ n. cc (hit, n)))
    ]
  ]
]

consume_value-Edit :
    (s : Store) (now : Time) (state name : Text) → Edit s 0 (consume_value s now state name).0
unfolding consume_value
consume_value-Edit s now state name = elim (Bool-cases (state == [])) [
  | inl e ↦ rw (e, consume_value) same
  | inr e ↦ elim (Bool-cases (name == [])) [
    | inl f ↦ rw (e, f, consume_value) same
    | inr f ↦ elim (Option-cases (lookup state s.items)) [
      | inl miss ↦ rw (e, f, miss, consume_value) same
      | inr (w, hit) ↦ elim (Bool-cases (is_expired s.ttl w now)) [
        | inl old ↦ rw (e, f, hit, consume_value) (rw old (removed state))
        | inr fresh ↦ elim (Option-cases (lookup name w.values)) [
          | inl none' ↦ rw (e, f, hit, consume_value) (rw (fresh, none') same)
          | inr (v, got) ↦
              rw (e, f, hit, consume_value)
                (rw (fresh, got)
                  (without_value-Edit s state name w (not_empty state e) (λ n. cc (hit, n))))
        ]
      ]
    ]
  ]
]

save_value-Edit :
    (s : Store) (now : Time) (state name : Text) (v : Bytes)
    → Edit s 1 (save_value s now state name v).0 ⊎ Edit s 0 (save_value s now state name v).0
unfolding save_value
save_value-Edit s now state name v = elim (Bool-cases (state == [])) [
  | inl e ↦ rw e (inr same)
  | inr e ↦ elim (Bool-cases (name == [])) [
    | inl f ↦ rw (e, f) (inr same)
    | inr f ↦ rw (e, f) (inl (added state _ (not_empty state e)))
  ]
]

load_state-Edit : (s : Store) (now : Time) (state : Text) → Edit s 0 (load_state s now state).0
unfolding load_state load_state_read load_state_finish
load_state-Edit s now state = elim (Bool-cases (state == [])) [
  | inl e ↦ rw (e, load_state) same
  | inr e ↦ elim (Option-cases (lookup state s.items)) [
    | inl miss ↦ rw (e, miss, load_state_finish) same
    | inr (w, hit) ↦ elim (Bool-cases (is_expired s.ttl w now)) [
      | inl old ↦ rw (e, hit, load_state_finish) (rw old (removed state))
      | inr fresh ↦ rw (e, hit, load_state_finish) (rw fresh same)
    ]
  ]
]

load_value_finish-Edit :
    (s : Store) (later : Time) (state : Text) (r : Reading)
    → Edit s 0 (load_value_finish s later state r).0
unfolding load_value_finish
load_value_finish-Edit s later state missing = same
load_value_finish-Edit s later state (present v) = same
load_value_finish-Edit s later state expired = elim (Option-cases (lookup state s.items)) [
  | inl miss ↦ rw (miss, load_value_finish) same
  | inr (w, hit) ↦ elim (Bool-cases (is_expired s.ttl w later)) [
    | inl old ↦ rw (hit, load_value_finish) (rw old (removed state))
    | inr fresh ↦ rw (hit, load_value_finish) (rw fresh same)
  ]
]

load_value-Edit :
    (s : Store) (now later : Time) (state name : Text)
    → Edit s 0 (load_value s now later state name).0
unfolding load_value
load_value-Edit s now later state name = elim (Bool-cases (state == [])) [
  | inl e ↦ rw (e, load_value) same
  | inr e ↦ elim (Bool-cases (name == [])) [
    | inl f ↦ rw (e, f, load_value) same
    | inr f ↦
        rw (e, f, load_value)
          (load_value_finish-Edit s later state (load_value_read s now state name))
  ]
]

consume-Edit :
    (s : Store) (now : Time) (r : Option Request) (state : Text)
    → Edit s 0 (consume_correlation s now r state).0
unfolding consume_correlation
consume-Edit s now r state = elim (Bool-cases (state == [])) [
  | inl e ↦ rw (e, consume_correlation) same
  | inr e ↦ elim (Option-cases (lookup state s.items)) [
    | inl miss ↦ rw (e, miss, consume_correlation) same
    | inr (w, hit) ↦ elim (Bool-cases (is_expired s.ttl w now)) [
      | inl old ↦ rw (e, hit, consume_correlation) (rw old (removed state))
      | inr fresh ↦
          elim (Bool-cases (not (w.binding == []) && not (binding_cookie_value r == w.binding))) [
            | inl other ↦ rw (e, hit, consume_correlation) (rw (fresh, other) same)
            | inr mine ↦ rw (e, hit, consume_correlation) (rw (fresh, mine) (removed state))
          ]
    ]
  ]
]

delete_state-Edit : (s : Store) (state : Text) → Edit s 0 (delete_state s state).0
unfolding delete_state
delete_state-Edit s state = elim (Bool-cases (state == [])) [
  | inl e ↦ rw (e, delete_state) same
  | inr e ↦ rw (e, delete_state) (removed state)
]

-- Every call makes one edit.
pub step-Edit : (s : Store) (c : Call) → (n : ℕ) × (n ≤ growth c) × Edit s n (step s c)
unfolding step
step-Edit s (saves now later random w r state c) =
    (0, omega arith, save-Edit s now later random w r state c)
step-Edit s (consumes now r state) = (0, omega arith, consume-Edit s now r state)
step-Edit s (loads now state) = (0, omega arith, load_state-Edit s now state)
step-Edit s (deletes state) = (0, omega arith, delete_state-Edit s state)
step-Edit s (saves_value now state name v) = elim (save_value-Edit s now state name v) [
  | inl d ↦ (1, omega arith, d)
  | inr d ↦ (0, omega arith, d)
]
step-Edit s (loads_value now later state name) =
    (0, omega arith, load_value-Edit s now later state name)
step-Edit s (deletes_value state name) = (0, omega arith, delete_value-Edit s state name)
step-Edit s (consumes_value now state name) = (0, omega arith, consume_value-Edit s now state name)
