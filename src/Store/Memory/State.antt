-- ===== src/Store/Memory/State.antt =====
-- rp/store/memory/store.go: the operations on whole states.
use lanyard.Base.{Option, none, some, [], ◌∷◌, Text, ◌==◌, if◌then◌else◌, Except, ok, err}
use lanyard.Base.Maps.{Dict, lookup}
use lanyard.Http.{Time}
use lanyard.Store.{Bytes, StateScope, StoreError, empty_state}
use lanyard.Store.Memory.{Store, StateEntry, Loaded, is_expired, remove}

-- The values are copied; a copy is the same value here.
unfoldable pub clone_values : Dict Bytes → Dict Bytes
clone_values [] = []
clone_values ((k, v) ∷ m) = (k, v) ∷ clone_values m

-- LoadState reads the entry under the read lock,
unfoldable pub load_state_read : Store → Text → Option StateEntry
load_state_read s state = lookup state s.items

-- and tests the entry that it read afterwards; it deletes the key under the write lock.
unfoldable pub load_state_finish : Store → Time → Text → Option StateEntry → Loaded StateScope
load_state_finish s now state none = (s, ok none)
load_state_finish s now state (some entry) =
    if is_expired s.ttl entry now then (remove s state, ok none) else (
      s,
      ok (some (record { correlation = entry.correlation; values = clone_values entry.values })),
    )

-- LoadState with no other call between the two steps.
unfoldable pub load_state : Store → Time → Text → Loaded StateScope
unfolding load_state_read load_state_finish
load_state s now state =
    if state == []
    then (s, err empty_state)
    else load_state_finish s now state (load_state_read s state)

unfoldable pub delete_state : Store → Text → Store × Except StoreError (Unit {0})
delete_state s state = if state == [] then (s, err empty_state) else (remove s state, ok tt)
