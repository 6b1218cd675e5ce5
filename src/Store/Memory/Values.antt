-- ===== src/Store/Memory/Values.antt =====
-- rp/store/memory/store.go: the operations on caller-owned values.
use lanyard.Base.{
  Option, none, some, [], ◌&&◌, Text, ◌==◌, eqb, if◌then◌else◌, is_empty, Except, ok, err,
}
use lanyard.Base.Maps.{lookup, insert, erase}
use lanyard.Http.{Time}
use lanyard.Store.{Bytes, StoreError, empty_state, empty_name}
use lanyard.Store.Memory.{
  Store, StateEntry, Loaded, entry_or_zero, is_expired, is_zero_correlation, remove,
}

abbrev set_item : Store → Text → StateEntry → Store
set_item s state e = record s { items = insert state e s.items }

-- The entry that SaveValue writes over `old`.
unfoldable pub valued_entry : StateEntry → Time → Text → Bytes → StateEntry
valued_entry old now name value = record old {
  created_at = if eqb old.created_at 0 then now else old.created_at;
  values = insert name value old.values;
}

unfoldable pub save_value :
    Store → Time → Text → Text → Bytes → Store × Except StoreError (Unit {0})
save_value s now state name value =
    if state == [] then (s, err empty_state) else if name == [] then (s, err empty_name) else (
      set_item s state (valued_entry (entry_or_zero (lookup state s.items)) now name value),
      ok tt,
    )

-- What LoadValue learns under the read lock.
pub data Reading : Type 0 where
  missing expired : Reading
  present : Option Bytes → Reading

unfoldable pub load_value_read : Store → Time → Text → Text → Reading
load_value_read s now state name = elim (lookup state s.items) [
  | none ↦ missing
  | some entry ↦ if is_expired s.ttl entry now then expired else present (lookup name entry.values)
]

-- What it does then: an entry read as expired is looked up and tested again, under the write lock.
unfoldable pub load_value_finish : Store → Time → Text → Reading → Loaded Bytes
load_value_finish s later state missing = (s, ok none)
load_value_finish s later state (present value) = (s, ok value)
load_value_finish s later state expired = elim (lookup state s.items) [
  | none ↦ (s, ok none)
  | some current ↦ (if is_expired s.ttl current later then remove s state else s, ok none)
]

-- LoadValue with no other call between the two steps.
unfoldable pub load_value : Store → Time → Time → Text → Text → Loaded Bytes
load_value s now later state name =
    if state == []
    then (s, err empty_state)
    else if name == []
    then (s, err empty_name)
    else load_value_finish s later state (load_value_read s now state name)

-- The write-back of DeleteValue and ConsumeValue: an entry with nothing left is deleted.
unfoldable pub without_value : Store → Text → Text → StateEntry → Store
without_value s state name entry =
    let left = record entry { values = erase name entry.values } in
    if is_empty left.values && is_zero_correlation left.correlation
    then remove s state
    else set_item s state left

unfoldable pub delete_value : Store → Text → Text → Store × Except StoreError (Unit {0})
delete_value s state name =
    if state == []
    then (s, err empty_state)
    else if name == []
    then (s, err empty_name)
    else elim (lookup state s.items) [
      | none ↦ (s, ok tt)
      | some entry ↦ (without_value s state name entry, ok tt)
    ]

unfoldable pub consume_value : Store → Time → Text → Text → Loaded Bytes
consume_value s now state name =
    if state == []
    then (s, err empty_state)
    else if name == []
    then (s, err empty_name)
    else elim (lookup state s.items) [
      | none ↦ (s, ok none)
      | some entry ↦
          if is_expired s.ttl entry now
          then (remove s state, ok none)
          else elim (lookup name entry.values) [
            | none ↦ (s, ok none)
            | some value ↦ (without_value s state name entry, ok (some value))
          ]
    ]
