-- ===== src/Store/Memory/Sweep.antt =====
-- The first loop of `sweepLocked` in rp/store/memory/store.go: it deletes the expired entries.
use lanyard.Base.{
  ◌≤◌, ◌≡◌, refl, ◌≢◌, Option, none, some, [], ◌∷◌, Text, eq_iff, if◌then◌else◌, length, arith,
}
use lanyard.Base.Maps.{Dict, lookup, erase, Distinct}
use lanyard.Http.{Time, Duration}
use lanyard.Store.Memory.{StateEntry, is_expired, drop_expired}

abbrev pub KeysNonempty : Dict StateEntry → Type 0
KeysNonempty [] = Unit
KeysNonempty ((k, e) ∷ m) = (k ≢ []) × KeysNonempty m

pub erase-KeysNonempty :
    (k : Text) (m : Dict StateEntry) → KeysNonempty m → KeysNonempty (erase k m)
unfolding erase
erase-KeysNonempty k [] h = tt
erase-KeysNonempty k ((j, e) ∷ m) h = ground (arith, erase-KeysNonempty k m h.1)

-- What the first loop leaves of an entry.
abbrev pub unexpired : Duration → Time → Option StateEntry → Option StateEntry
unexpired ttl now none = none
unexpired ttl now (some e) = if is_expired ttl e now then none else some e

pub lookup-drop_expired :
    (ttl : Duration) (now : Time) (k : Text) (m : Dict StateEntry)
    → Distinct m
    → lookup k (drop_expired ttl now m) ≡ unexpired ttl now (lookup k m)
unfolding lookup drop_expired
lookup-drop_expired ttl now k [] d = refl
lookup-drop_expired ttl now k ((j, w) ∷ m) d =
    ground (arith, eq_iff j k, lookup-drop_expired ttl now k m d.1)

pub lookup-drop_expired-none :
    (ttl : Duration) (now : Time) (k : Text) (m : Dict StateEntry)
    → lookup k m ≡ none
    → lookup k (drop_expired ttl now m) ≡ none
unfolding lookup drop_expired
lookup-drop_expired-none ttl now k [] h = refl
lookup-drop_expired-none ttl now k ((j, w) ∷ m) h =
    ground (arith, lookup-drop_expired-none ttl now k m)

pub drop_expired-Distinct :
    (ttl : Duration) (now : Time) (m : Dict StateEntry)
    → Distinct m
    → Distinct (drop_expired ttl now m)
unfolding drop_expired
drop_expired-Distinct ttl now [] d = tt
drop_expired-Distinct ttl now ((j, w) ∷ m) d =
    ground (arith, drop_expired-Distinct ttl now m d.1, lookup-drop_expired-none ttl now j m)

pub drop_expired-KeysNonempty :
    (ttl : Duration) (now : Time) (m : Dict StateEntry)
    → KeysNonempty m
    → KeysNonempty (drop_expired ttl now m)
unfolding drop_expired
drop_expired-KeysNonempty ttl now [] d = tt
drop_expired-KeysNonempty ttl now ((j, w) ∷ m) d =
    ground (arith, drop_expired-KeysNonempty ttl now m d.1)

pub length-drop_expired-le :
    (ttl : Duration) (now : Time) (m : Dict StateEntry) → length (drop_expired ttl now m) ≤ length m
unfolding drop_expired
length-drop_expired-le ttl now [] = omega arith
length-drop_expired-le ttl now ((j, w) ∷ m) = ground (arith, length-drop_expired-le ttl now m)
