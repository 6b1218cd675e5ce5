-- ===== src/Store/Memory/Stored.antt =====
-- Values in rp/store/memory/store.go: what is saved is loaded, and what is consumed is gone.
use lanyard.Base.{
  ◌≤◌, ◌≡◌, refl, ap, ◌∙◌, ◌≢◌, inl, inr, Option, none, some, [], ◌∷◌, true, false, Text, ◌==◌,
  eq_iff, ok, arith, Bool-cases, Option-cases, ◌&&◌, if◌then◌else◌, is_empty,
}
use lanyard.Base.Maps.{
  lookup, insert, erase, lookup-insert, lookup-insert_self, lookup-erase, lookup-erase_self, Dict,
}
use lanyard.Http.{Time, Duration}
use lanyard.Store.{Bytes}
use lanyard.Store.Memory.{Store, StateEntry, entry_or_zero, is_expired, is_zero_correlation}
use lanyard.Store.Memory.Values.{
  valued_entry, save_value, load_value, load_value_read, load_value_finish, without_value,
  consume_value,
}

-- What a load at time `t` sees of an entry.
abbrev pub visible : Duration → Time → Text → Option StateEntry → Option Bytes
visible ttl t name none = none
visible ttl t name (some e) = if is_expired ttl e t then none else lookup name e.values

-- LoadValue yields what is visible of the state's entry, and an error for an empty state or name;
-- its second clock reading does not matter to the result.
pub load_value-visible :
    (s : Store) (now later : Time) (state name : Text)
    → state ≢ []
    → name ≢ []
    → (load_value s now later state name).1 ≡ ok (visible s.ttl now name (lookup state s.items))
unfolding load_value load_value_read load_value_finish
load_value-visible s now later state name ne nn = ground (arith, eq_iff state [], eq_iff name [])

save_value_ok :
    (s : Store) (now : Time) (state name : Text) (v : Bytes)
    → state ≢ []
    → name ≢ []
    → save_value s now state name v ≡ (
      record s {
        items =
            insert state (valued_entry (entry_or_zero (lookup state s.items)) now name v) s.items;
      },
      ok tt,
    )
unfolding save_value
save_value_ok s now state name v ne nn = ground (arith, eq_iff state [], eq_iff name [])

-- A saved value is what a later load of the same name yields, and a load of another name yields what
-- the state held under it before; while the entry that the save leaves is live.
pub load-save_value :
    (s : Store) (now t t' : Time) (state name name' : Text) (v : Bytes)
    → state ≢ []
    → name ≢ []
    → name' ≢ []
    → is_expired s.ttl (valued_entry (entry_or_zero (lookup state s.items)) now name v) t ≡ false
    → (load_value (save_value s now state name v).0 t t' state name').1
      ≡ ok (
          if name == name'
          then some v
          else lookup name' (entry_or_zero (lookup state s.items)).values)
load-save_value s now t t' state name name' v ne nn nn' fresh =
    let e = valued_entry (entry_or_zero (lookup state s.items)) now name v in
    load_value-visible (save_value s now state name v).0 t t' state name' ne nn'
    ∙ rw (save_value_ok s now state name v ne nn, lookup-insert_self state e s.items, fresh)
        (unfold valued_entry in
          ap ok (lookup-insert name name' v (entry_or_zero (lookup state s.items)).values))

-- Values under other states are untouched by a save.
pub load-save_value_ne :
    (s : Store) (now t t' : Time) (state state' name name' : Text) (v : Bytes)
    → state ≢ []
    → name ≢ []
    → state ≢ state'
    → lookup state' (save_value s now state name v).0.items ≡ lookup state' s.items
load-save_value_ne s now t t' state state' name name' v ne nn other =
    rw (save_value_ok s now state name v ne nn) (
      ground (
        arith,
        eq_iff state state',
        lookup-insert state state' (valued_entry (entry_or_zero (lookup state s.items)) now name v)
            s.items,
      ))

valued_entry_expired :
    (ttl : Duration) (e : StateEntry) (now t : Time) (name : Text) (v : Bytes)
    → is_expired ttl e now ≡ true
    → now ≤ t
    → is_expired ttl (valued_entry e now name v) t ≡ true
unfolding is_expired valued_entry
valued_entry_expired ttl e now t name v old le = ground arith

-- A save into a state whose entry has expired reports success, and the value is lost: no later load
-- yields it.
pub save_value_expired :
    (s : Store) (now t t' : Time) (state name : Text) (v : Bytes) (e : StateEntry)
    → state ≢ []
    → name ≢ []
    → lookup state s.items ≡ some e
    → is_expired s.ttl e now ≡ true
    → now ≤ t
    → ((save_value s now state name v).1 ≡ ok tt)
      × ((load_value (save_value s now state name v).0 t t' state name).1 ≡ ok none)
save_value_expired s now t t' state name v e ne nn hit old le =
    let w = valued_entry (entry_or_zero (lookup state s.items)) now name v in
    (
      ap (λ p. p.1) (save_value_ok s now state name v ne nn),
      load_value-visible (save_value s now state name v).0 t t' state name ne nn
          ∙ rw (
            save_value_ok s now state name v ne nn,
            lookup-insert_self state w s.items,
            valued_entry_expired s.ttl (entry_or_zero (lookup state s.items)) now t name v
                (rw hit old) le,
          ),
    )

lookup_of_is_empty : (j : Text) (m : Dict Bytes) → is_empty m ≡ true → lookup j m ≡ none
unfolding lookup
lookup_of_is_empty j [] h = refl
lookup_of_is_empty j (x ∷ m) h = cc

erase_of_is_empty :
    (k j : Text) (m : Dict Bytes)
    → is_empty (erase k m) ≡ true
    → lookup j m ≡ (if k == j then lookup j m else none)
erase_of_is_empty k j m h = ground (arith, lookup-erase k j m, lookup_of_is_empty j (erase k m))

is_expired_values :
    (ttl : Duration) (e : StateEntry) (m : Dict Bytes) (t : Time)
    → is_expired ttl (record e { values = m }) t ≡ is_expired ttl e t
unfolding is_expired
is_expired_values ttl e m t = refl

-- What is visible of a state after a value of it was deleted.
visible-without_value :
    (s : Store) (t : Time) (state name name' : Text) (e : StateEntry)
    → visible s.ttl t name' (lookup state (without_value s state name e).items)
      ≡ (if name == name' then none else visible s.ttl t name' (some e))
unfolding without_value
visible-without_value s t state name name' e =
    elim (Bool-cases (is_empty (erase name e.values) && is_zero_correlation e.correlation)) [
      | inl gone ↦
          rw (gone, lookup-erase_self state s.items)
            (ground (arith, erase_of_is_empty name name' e.values))
      | inr left ↦
          rw (left, lookup-insert_self state (record e { values = erase name e.values }) s.items)
            (ground (
              arith,
              is_expired_values s.ttl e (erase name e.values) t,
              lookup-erase name name' e.values,
            ))
    ]

without_value_ttl :
    (s : Store) (state name : Text) (e : StateEntry) → (without_value s state name e).ttl ≡ s.ttl
unfolding without_value
without_value_ttl s state name e = ground arith

-- What a successful consumption has found.
consume_value_inv :
    (s s' : Store) (now : Time) (state name : Text) (v : Bytes)
    → consume_value s now state name ≡ (s', ok (some v))
    → (e : StateEntry) × (lookup state s.items ≡ some e)
      × (visible s.ttl now name (some e) ≡ some v)
      × (s' ≡ without_value s state name e)
      × (state ≢ [])
      × (name ≢ [])
unfolding consume_value
consume_value_inv s s' now state name v h = elim (Option-cases (lookup state s.items)) [
  | inl miss ↦ ground arith
  | inr (e, hit) ↦ (
    e,
    hit,
    ground arith,
    ground arith,
    ground (arith, eq_iff state []),
    ground (arith, eq_iff name []),
  )
]

-- A consumed value is the one that a load at that time would have yielded; afterwards no load yields
-- it, and loads of every other name of the state yield what they did.
pub consume_value_once :
    (s s' : Store) (now t t' : Time) (state name name' : Text) (v : Bytes)
    → name' ≢ []
    → consume_value s now state name ≡ (s', ok (some v))
    → ((load_value s now t' state name).1 ≡ ok (some v))
      × ((load_value s' t t' state name').1
          ≡ (if name == name' then ok none else (load_value s t t' state name').1))
consume_value_once s s' now t t' state name name' v nn' h =
    once (consume_value_inv s s' now state name v h)
  where
    once :
        ((e : StateEntry) × (lookup state s.items ≡ some e)
          × (visible s.ttl now name (some e) ≡ some v)
          × (s' ≡ without_value s state name e)
          × (state ≢ [])
          × (name ≢ []))
        → ((load_value s now t' state name).1 ≡ ok (some v))
          × ((load_value s' t t' state name').1
              ≡ (if name == name' then ok none else (load_value s t t' state name').1))
    once (e, hit, seen, left, ne, nn) = (
      load_value-visible s now t' state name ne nn ∙ rw hit (ap ok seen),
      rw
          (
            load_value-visible s' t t' state name' ne nn',
            load_value-visible s t t' state name' ne nn',
            left,
            without_value_ttl s state name e,
            visible-without_value s t state name name' e,
            hit,
          )
          (ground arith),
    )
