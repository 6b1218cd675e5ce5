-- ===== src/Store/Memory/Callbacks.antt =====
-- Saving and consuming a correlation in rp/store/memory/store.go.
use lanyard.Base.{
  ℕ, ◌+◌, ◌≤◌, ◌<◌, ◌≡◌, ap, ◌∙◌, ◌≢◌, ◌⊎◌, inl, inr, Option, none, some, List, [], ◌∷◌, ◌++◌, true,
  false, Text, ◌==◌, eq_iff, length, ok, arith, Bool-cases, Option-cases, ◌&&◌, if◌then◌else◌,
}
use lanyard.Base.Maps.{
  lookup, insert, Distinct, lookup-insert_self, lookup-erase, lookup-erase_self, length-insert-le,
  insert-Distinct,
}
use lanyard.Http.{Time, Duration, Request, ResponseWriter}
use lanyard.Store.{CallbackCorrelation}
use lanyard.Store.Memory.{
  Store, StateEntry, set_cookie, entry_or_zero, is_expired, binding_cookie_name,
  binding_cookie_value, choose_binding, saved_entry, stamped, sweep, binding_cookie,
  save_correlation, consume_correlation, remove, max_entries, is_some,
}
use lanyard.Store.Memory.Eviction.{lookup-sweep}

-- Who may consume the entry: anybody, if it is not bound, or who presents its cookie.
abbrev pub MayConsume : StateEntry → Option Request → Type 0
MayConsume e r = (e.binding ≡ []) ⊎ (binding_cookie_value r ≡ e.binding)

-- A correlation is handed out only if an entry is stored under the state that has not expired at
-- that time and that is unbound or bound to the cookie of the request; it is that entry's, and the
-- entry is then gone.
pub consume_sound :
    (s s' : Store) (now : Time) (r : Option Request) (state : Text) (c : CallbackCorrelation)
    → consume_correlation s now r state ≡ (s', ok (some c))
    → (e : StateEntry) × (lookup state s.items ≡ some e)
      × (is_expired s.ttl e now ≡ false)
      × MayConsume e r
      × (c ≡ e.correlation)
      × (s' ≡ remove s state)
unfolding consume_correlation
consume_sound s s' now r state c h = elim (Option-cases (lookup state s.items)) [
  | inl miss ↦ ground arith
  | inr (e, hit) ↦ (
    e,
    hit,
    ground arith,
    ground (arith, eq_iff e.binding [], eq_iff (binding_cookie_value r) e.binding),
    ground arith,
    ground arith,
  )
]

-- A correlation is handed out once: after that the state is unknown to every request, at any time.
pub consume_once :
    (s s' : Store) (now later : Time) (r r' : Option Request) (state : Text)
    (c : CallbackCorrelation)
    → consume_correlation s now r state ≡ (s', ok (some c))
    → consume_correlation s' later r' state ≡ (s', ok none)
unfolding consume_correlation
consume_once s s' now later r r' state c h =
    ground (arith, consume_sound s s' now r state c, lookup-erase_self state s.items)

-- A request without the cookie of a live bound entry gets nothing, and the entry stays.
consume_wrong_browser :
    (s : Store) (now : Time) (r : Option Request) (state : Text) (e : StateEntry)
    → state ≢ []
    → lookup state s.items ≡ some e
    → is_expired s.ttl e now ≡ false
    → e.binding ≢ []
    → binding_cookie_value r ≢ e.binding
    → consume_correlation s now r state ≡ (s, ok none)
unfolding consume_correlation
consume_wrong_browser s now r state e ne hit fresh bound other =
    ground (arith, eq_iff state [], eq_iff e.binding [], eq_iff (binding_cookie_value r) e.binding)

-- A live entry is handed out to every request that may consume it, and removed.
pub consume_live :
    (s : Store) (now : Time) (r : Option Request) (state : Text) (e : StateEntry)
    → state ≢ []
    → lookup state s.items ≡ some e
    → is_expired s.ttl e now ≡ false
    → MayConsume e r
    → consume_correlation s now r state ≡ (remove s state, ok (some e.correlation))
unfolding consume_correlation
consume_live s now r state e ne hit fresh may =
    ground (arith, eq_iff state [], eq_iff e.binding [], eq_iff (binding_cookie_value r) e.binding)

-- A request that does not carry the binding cookie of a live entry gets nothing, and the owner of the
-- entry loses nothing by it: a later request that may consume the entry, while it is live, still gets
-- its correlation, and so removes it.
pub consume_after_wrong_browser :
    (s : Store) (now later : Time) (wrong right : Option Request) (state : Text) (e : StateEntry)
    → state ≢ []
    → lookup state s.items ≡ some e
    → is_expired s.ttl e now ≡ false
    → is_expired s.ttl e later ≡ false
    → e.binding ≢ []
    → binding_cookie_value wrong ≢ e.binding
    → MayConsume e right
    → ((consume_correlation s now wrong state).1 ≡ ok none)
      × (consume_correlation (consume_correlation s now wrong state).0 later right state
          ≡ (remove s state, ok (some e.correlation)))
consume_after_wrong_browser s now later wrong right state e ne hit fresh fresh' bound other may =
    let refused = consume_wrong_browser s now wrong state e ne hit fresh bound other in
    (ap (λ x. x.1) refused, rw refused (consume_live s later right state e ne hit fresh' may))

-- Consuming one state leaves the entries of all others as they were.
pub consume_others :
    (s : Store) (now : Time) (r : Option Request) (state j : Text)
    → state ≢ j
    → lookup j (consume_correlation s now r state).0.items ≡ lookup j s.items
unfolding consume_correlation
consume_others s now r state j ne = ground (arith, eq_iff state j, lookup-erase state j s.items)

-- Live at `t`, by the correlation's own times.
abbrev pub Fresh : Duration → CallbackCorrelation → Time → Type 0
Fresh ttl c t = (t ≤ c.created_at + ttl) × ((c.expiry ≡ 0) ⊎ (t ≤ c.expiry))

saved_entry-Fresh :
    (ttl : Duration) (old : StateEntry) (c : CallbackCorrelation) (binding : Text) (t : Time)
    → 0 < c.created_at
    → Fresh ttl c t
    → is_expired ttl (saved_entry old c binding) t ≡ false
unfolding is_expired saved_entry
saved_entry-Fresh ttl old c binding t pos f = ground arith

presented :
    (r : Request) (binding : Text)
    → lookup binding_cookie_name r.cookies ≡ some binding
    → binding_cookie_value (some r) ≡ binding
unfolding binding_cookie_value
presented r binding sent = ground arith

-- A save that does not fail, as one equation.
save_ok :
    (s : Store) (now later : Time) (random : Option (List ℕ)) (w : Option ResponseWriter)
    (r : Option Request) (state : Text) (c : CallbackCorrelation) (binding : Text)
    → state ≢ []
    → choose_binding (is_some w && is_some r) r random ≡ ok binding
    → save_correlation s now later random w r state c ≡ record {
      store = record s {
        items = sweep s.ttl later (
            insert state
              (saved_entry (entry_or_zero (lookup state s.items)) (stamped now c) binding)
              s.items);
      };
      writer =
          if is_some w && is_some r then set_cookie w (binding_cookie s.ttl now binding) else w;
      result = ok tt;
    }
unfolding save_correlation
save_ok s now later random w r state c binding ne chosen = elim (Bool-cases (state == [])) [
  | inl e ↦ absurd (ne ((eq_iff state []).0 e))
  | inr e ↦ rw (e, chosen)
]

-- What it leaves under its state, below the capacity.
lookup-save :
    (s : Store) (now later : Time) (random : Option (List ℕ)) (w : Option ResponseWriter)
    (r : Option Request) (state : Text) (c : CallbackCorrelation) (binding : Text)
    → Distinct s.items
    → state ≢ []
    → length s.items < max_entries
    → choose_binding (is_some w && is_some r) r random ≡ ok binding
    → 0 < (stamped now c).created_at
    → Fresh s.ttl (stamped now c) later
    → lookup state (save_correlation s now later random w r state c).store.items
      ≡ some (saved_entry (entry_or_zero (lookup state s.items)) (stamped now c) binding)
lookup-save s now later random w r state c binding d ne room chosen pos f =
    let old = entry_or_zero (lookup state s.items) in
    let e = saved_entry old (stamped now c) binding in
    rw (save_ok s now later random w r state c binding ne chosen) (
      lookup-sweep s.ttl later (insert state e s.items) state (insert-Distinct state e s.items d)
        (omega (arith, length-insert-le state e s.items))
      ∙ rw (
        lookup-insert_self state e s.items,
        saved_entry-Fresh s.ttl old (stamped now c) binding later pos f,
      ))

-- A callback round trip. A state that is saved with a response is consumed by the browser that
-- returns the cookie of that response, with the correlation that was saved, its creation time filled
-- in. The store is below its capacity, the saved correlation is live at the sweep and at the callback.
pub consume-save :
    (s : Store) (now later t : Time) (random : Option (List ℕ)) (w : ResponseWriter)
    (r r' : Request) (state : Text) (c : CallbackCorrelation) (binding : Text)
    → Distinct s.items
    → state ≢ []
    → length s.items < max_entries
    → choose_binding true (some r) random ≡ ok binding
    → lookup binding_cookie_name r'.cookies ≡ some binding
    → 0 < (stamped now c).created_at
    → Fresh s.ttl (stamped now c) later
    → Fresh s.ttl (stamped now c) t
    → let saved = save_correlation s now later random (some w) (some r) state c in
      (saved.writer ≡ some (w ++ binding_cookie s.ttl now binding ∷ []))
      × ((consume_correlation saved.store t (some r') state).1 ≡ ok (some (stamped now c)))
unfolding save_correlation saved_entry
consume-save s now later t random w r r' state c binding d ne room chosen sent pos f g = (
  rw (save_ok s now later random (some w) (some r) state c binding ne chosen),
  ap (λ p. p.1)
      (consume_live _ t (some r') state (saved_entry old (stamped now c) binding) ne
        (lookup-save s now later random (some w) (some r) state c binding d ne room chosen pos f)
        (rw (save_ok s now later random (some w) (some r) state c binding ne chosen)
          (saved_entry-Fresh s.ttl old (stamped now c) binding t pos g))
        (inr (presented r' binding sent))),
)
  where
    old : StateEntry
    old = entry_or_zero (lookup state s.items)
