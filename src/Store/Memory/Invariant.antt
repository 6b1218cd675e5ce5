-- ===== src/Store/Memory/Invariant.antt =====
-- Every history of calls on the store of rp/store/memory/store.go: the shape of the map, and its size.
use lanyard.Base.{
  ℕ, ◌+◌, ◌≤◌, ◌<◌, ◌≡◌, refl, ◌≢◌, Option, none, some, List, [], ◌∷◌, Text, length, arith,
}
use lanyard.Base.Maps.{
  lookup, insert, Distinct, insert-Distinct, erase-Distinct, length-insert-le, length-erase-le,
  Dict,
}
use lanyard.Http.{Time, Duration}
use lanyard.Store.Memory.{Store, StateEntry, new, sweep, remove, max_entries}
use lanyard.Store.Memory.Edit.{
  Call, step, run, growth, put, Edit, same, removed, updated, added, swept, step-Edit,
}
use lanyard.Store.Memory.Sweep.{KeysNonempty, erase-KeysNonempty}
use lanyard.Store.Memory.Eviction.{length-sweep-le, sweep-Distinct, sweep-KeysNonempty}

-- No key twice, and no empty key: the inner loop of the sweep takes "" for "none yet".
pub record IsValid (s : Store) : Type 0 where
  pub distinct : Distinct s.items
  pub nonempty : KeysNonempty s.items
  pub lasting : 0 < s.ttl

new-IsValid : (ttl : Option Duration) → IsValid (new ttl)
unfolding new
new-IsValid none = ground arith
new-IsValid (some ttl) = ground arith

insert-KeysNonempty :
    (k : Text) (e : StateEntry) (m : Dict StateEntry)
    → k ≢ []
    → KeysNonempty m
    → KeysNonempty (insert k e m)
unfolding insert
insert-KeysNonempty k e [] h ks = (h, tt)
insert-KeysNonempty k e ((j, w) ∷ m) h ks = ground (arith, insert-KeysNonempty k e m h ks.1)

remove-IsValid : (s : Store) (state : Text) → IsValid s → IsValid (remove s state)
remove-IsValid s state v = record {
  distinct = erase-Distinct state s.items v.distinct;
  nonempty = erase-KeysNonempty state s.items v.nonempty;
  lasting = v.lasting;
}

insert-IsValid :
    (s : Store) (state : Text) (e : StateEntry)
    → state ≢ []
    → IsValid s
    → IsValid (record s { items = insert state e s.items })
insert-IsValid s state e ne v = record {
  distinct = insert-Distinct state e s.items v.distinct;
  nonempty = insert-KeysNonempty state e s.items ne v.nonempty;
  lasting = v.lasting;
}

sweep-IsValid :
    (s : Store) (now : Time) → IsValid s → IsValid (record s { items = sweep s.ttl now s.items })
sweep-IsValid s now v = record {
  distinct = sweep-Distinct s.ttl now s.items v.distinct;
  nonempty = sweep-KeysNonempty s.ttl now s.items v.nonempty;
  lasting = v.lasting;
}

Edit-IsValid : {s t : Store} {n : ℕ} → Edit s n t → IsValid s → IsValid t
Edit-IsValid same v = v
Edit-IsValid {s} (removed k) v = remove-IsValid s k v
Edit-IsValid {s} (updated k e ne hit) v = insert-IsValid s k e ne v
Edit-IsValid {s} (added k e ne) v = insert-IsValid s k e ne v
Edit-IsValid {s} (swept k e now ne) v = sweep-IsValid (put s k e) now (insert-IsValid s k e ne v)

-- Every history of calls on a new store keeps its keys distinct and not empty and its time-to-live
-- above 0.
pub run-IsValid : (ttl : Option Duration) (cs : List Call) → IsValid (run (new ttl) cs)
unfolding run
run-IsValid ttl cs = go (new ttl) cs (new-IsValid ttl)
  where
    go : (s : Store) (cs : List Call) → IsValid s → IsValid (run s cs)
    go s [] v = v
    go s (c ∷ cs) v = go (step s c) cs (Edit-IsValid (step-Edit s c).2 v)

length-insert_hit :
    (k : Text) (e : StateEntry) (m : Dict StateEntry)
    → lookup k m ≢ none
    → length (insert k e m) ≡ length m
unfolding insert lookup
length-insert_hit k e [] h = absurd (h refl)
length-insert_hit k e ((j, w) ∷ m) h = ground (arith, length-insert_hit k e m)

Edit-length :
    {s t : Store} {n : ℕ} (b : ℕ)
    → Edit s n t
    → max_entries ≤ b
    → length s.items ≤ b
    → length t.items ≤ b + n
Edit-length b same le h = omega arith
Edit-length {s} b (removed k) le h = omega (arith, length-erase-le k s.items)
Edit-length {s} b (updated k e ne hit) le h = omega (arith, length-insert_hit k e s.items hit)
Edit-length {s} b (added k e ne) le h = omega (arith, length-insert-le k e s.items)
Edit-length {s} b (swept k e now ne) le h =
    omega (arith, length-sweep-le s.ttl now (insert k e s.items))

-- The calls of a history that may add an entry without a sweep.
unfoldable pub saved_values : List Call → ℕ
saved_values [] = 0
saved_values (c ∷ cs) = growth c + saved_values cs

-- A history of calls on a new store leaves at most `max_entries` entries and one for each value that
-- was saved.
pub length-run-le :
    (ttl : Option Duration) (cs : List Call)
    → length (run (new ttl) cs).items ≤ max_entries + saved_values cs
unfolding run new saved_values
length-run-le ttl cs = go max_entries (new ttl) cs (omega arith) (new_small ttl)
  where
    new_small : (ttl : Option Duration) → length (new ttl).items ≤ max_entries
    new_small none = omega arith
    new_small (some t) = omega arith

    go :
        (b : ℕ) (s : Store) (cs : List Call)
        → max_entries ≤ b
        → length s.items ≤ b
        → length (run s cs).items ≤ b + saved_values cs
    go b s [] le h = omega arith
    go b s (c ∷ cs) le h =
        let (n, small, d) = step-Edit s c in
        let next =
          go (b + growth c) (step s c) cs (omega arith) (omega (arith, Edit-length b d le h)) in
        omega (arith, next)
