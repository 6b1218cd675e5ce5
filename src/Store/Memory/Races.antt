-- ===== src/Store/Memory/Races.antt =====
-- The two loads of rp/store/memory/store.go let go of the mutex between what they read and what they
-- delete, so other calls may come between.
use lanyard.Base.{
  ◌≡◌, ◌≢◌, inl, inr, Option, none, some, [], true, false, Text, eq_iff, ok, arith, Option-cases,
  Bool-cases,
}
use lanyard.Base.Maps.{lookup, lookup-erase, lookup-erase_self}
use lanyard.Http.{Time, Request}
use lanyard.Store.Memory.{Store, StateEntry, is_expired, consume_correlation}
use lanyard.Store.Memory.State.{load_state_read, load_state_finish}
use lanyard.Store.Memory.Callbacks.{MayConsume, consume_live}
use lanyard.Store.Memory.Values.{load_value_finish, Reading, missing, expired, present}

-- Whatever LoadValue has read of an earlier store, its second step leaves a store alone whose entry
-- under the state is live at that time, and it never touches the entry of another state.
pub load_value_keeps_live :
    (s : Store) (later : Time) (state j : Text) (e : StateEntry) (seen : Reading)
    → lookup j s.items ≡ some e
    → is_expired s.ttl e later ≡ false
    → lookup j (load_value_finish s later state seen).0.items ≡ some e
unfolding load_value_finish
load_value_keeps_live s later state j e missing hit fresh = hit
load_value_keeps_live s later state j e (present v) hit fresh = hit
load_value_keeps_live s later state j e expired hit fresh =
    elim (Option-cases (lookup state s.items)) [
      | inl miss ↦ rw (miss, load_value_finish) hit
      | inr (w, q) ↦ elim (Bool-cases (is_expired s.ttl w later)) [
        | inl old ↦
            rw (q, load_value_finish)
              (rw old (ground (arith, eq_iff state j, lookup-erase state j s.items)))
        | inr new ↦ rw (q, load_value_finish) (rw new hit)
      ]
    ]

-- LoadState does not look again. Where it has read an expired entry, its second step deletes what is
-- stored under the state by then: a correlation that was saved anew in between, and that its browser
-- could have consumed, is lost.
pub load_state_loses_save :
    (s s' : Store) (t now : Time) (r : Option Request) (state : Text) (old e : StateEntry)
    → state ≢ []
    → lookup state s.items ≡ some old
    → is_expired s'.ttl old t ≡ true
    → lookup state s'.items ≡ some e
    → is_expired s'.ttl e now ≡ false
    → MayConsume e r
    → ((consume_correlation s' now r state).1 ≡ ok (some e.correlation))
      × ((consume_correlation
            (load_state_finish s' t state (load_state_read s state)).0
            now
            r
            state).1
          ≡ ok none)
load_state_loses_save s s' t now r state old e ne read stale hit fresh may = (
  rw (consume_live s' now r state e ne hit fresh may),
  unfold load_state_finish load_state_read consume_correlation in
      rw (read, load_state_finish)
        (rw stale (ground (arith, eq_iff state [], lookup-erase_self state s'.items))),
)
