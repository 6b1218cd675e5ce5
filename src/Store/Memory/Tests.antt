-- ===== src/Store/Memory/Tests.antt =====
-- Runs of the store of rp/store/memory/store.go on small inputs.
use lanyard.Base.{
  ℕ, ◌≡◌, refl, ◌≤◌, ◌<◌, inl, inr, none, some, List, [], ◌∷◌, ◌++◌, false, Text, codes, ne_of_==,
  zero, suc, ◌+◌, ok, arith, length, ◌==◌,
}
use lanyard.Base.Maps.{Dict, lookup, erase, Distinct}
use lanyard.Http.{Request}
use lanyard.Store.{CallbackCorrelation}
use lanyard.Store.Memory.{
  Store, StateEntry, zero_entry, zero_correlation, binding_cookie_name, binding_cookie_value,
  is_expired, consume_correlation, save_correlation, choose_binding, remove, new, max_entries,
  sweep, drop_expired, evict, oldest, binding_cookie,
}
use lanyard.Store.Memory.State.{load_state_read, load_state_finish}
use lanyard.Store.Memory.Values.{save_value, valued_entry, load_value}
use lanyard.Store.Memory.Callbacks.{
  MayConsume, consume_sound, consume_after_wrong_browser, consume_others, consume-save,
}
use lanyard.Store.Memory.Stored.{load-save_value, save_value_expired}
use lanyard.Store.Memory.Edit.{Call, saves, saves_value, run}
use lanyard.Store.Memory.Invariant.{IsValid, run-IsValid, saved_values, length-run-le}
use lanyard.Store.Memory.Eviction.{sweep_oldest_first}
use lanyard.Store.Memory.Sweep.{KeysNonempty}
use lanyard.Store.Memory.Races.{load_state_loses_save}

abbrev correlation : CallbackCorrelation
correlation = record zero_correlation { nonce = codes "n"; created_at = 100 }

abbrev entry : StateEntry
entry = record {
  correlation = correlation;
  values = (codes "k", some (1 ∷ [])) ∷ [];
  created_at = 100;
  binding = codes "b";
}

abbrev store : Store
store = record { ttl = 1000; items = (codes "s", entry) ∷ [] }

abbrev browser : Text → Request
browser cookie = record {
  method = codes "GET";
  content_type = [];
  cookies = (binding_cookie_name, cookie) ∷ [];
  form = [];
  query = [];
}

consume_sound_example :
    (e : StateEntry) × (lookup (codes "s") store.items ≡ some e)
    × (is_expired 1000 e 200 ≡ false)
    × MayConsume e (some (browser (codes "b")))
    × (correlation ≡ e.correlation)
    × (remove store (codes "s") ≡ remove store (codes "s"))
unfolding consume_correlation lookup erase is_expired binding_cookie_value ◌==◌
consume_sound_example =
    consume_sound store (remove store (codes "s")) 200 (some (browser (codes "b"))) (codes "s")
      correlation refl

consume_after_wrong_browser_example :
    ((consume_correlation store 200 (some (browser (codes "x"))) (codes "s")).1 ≡ ok none)
    × (consume_correlation
          (consume_correlation store 200 (some (browser (codes "x"))) (codes "s")).0
          201
          (some (browser (codes "b")))
          (codes "s")
        ≡ (remove store (codes "s"), ok (some entry.correlation)))
unfolding lookup is_expired binding_cookie_value ◌==◌
consume_after_wrong_browser_example =
    consume_after_wrong_browser store 200 201 (some (browser (codes "x")))
      (some (browser (codes "b"))) (codes "s") entry (λ e. cc) refl refl refl
      (ne_of_== (codes "b") [] refl) (ne_of_== (codes "x") (codes "b") refl) (inr refl)

consume_others_example :
    lookup (codes "s") (consume_correlation store 200 none (codes "t")).0.items
    ≡ lookup (codes "s") store.items
unfolding ◌==◌
consume_others_example =
    consume_others store 200 none (codes "t") (codes "s") (ne_of_== (codes "t") (codes "s") refl)

load-save_value_example :
    (load_value
      (save_value store 200 (codes "s") (codes "j") (some (2 ∷ []))).0
      300
      300
      (codes "s")
      (codes "k")).1
    ≡ ok (some (some (1 ∷ [])))
unfolding lookup is_expired valued_entry ◌==◌
load-save_value_example =
    load-save_value store 200 300 300 (codes "s") (codes "j") (codes "k") (some (2 ∷ [])) (λ e. cc)
      (λ e. cc) (λ e. cc) refl

save_value_expired_example :
    ((save_value store 5000 (codes "s") (codes "j") none).1 ≡ ok tt)
    × ((load_value
          (save_value store 5000 (codes "s") (codes "j") none).0
          5000
          5000
          (codes "s")
          (codes "j")).1
        ≡ ok none)
unfolding lookup is_expired ◌==◌
save_value_expired_example =
    save_value_expired store 5000 5000 5000 (codes "s") (codes "j") none entry (λ e. cc) (λ e. cc)
      refl refl (omega arith)

consume-save_example :
    ((save_correlation store 50 60
        (some (7 ∷ []))
        (some [])
        (some (browser (codes "b")))
        (codes "t")
        correlation).writer
      ≡ some ([] ++ binding_cookie 1000 50 (codes "b") ∷ []))
    × ((consume_correlation
          (save_correlation store 50 60
            (some (7 ∷ []))
            (some [])
            (some (browser (codes "b")))
            (codes "t")
            correlation).store
          70
          (some (browser (codes "b")))
          (codes "t")).1
        ≡ ok (some correlation))
unfolding choose_binding binding_cookie_value lookup ◌==◌
consume-save_example =
    consume-save store 50 60 70 (some (7 ∷ [])) [] (browser (codes "b")) (browser (codes "b"))
      (codes "t") correlation (codes "b") (refl, tt) (λ e. cc) (omega arith) refl refl (omega arith)
      (omega arith, inl refl) (omega arith, inl refl)

abbrev calls : List Call
calls =
    saves_value 10 (codes "s") (codes "k") none
    ∷ saves 20 20 none none none (codes "t") correlation
    ∷ saves_value 30 (codes "u") (codes "k") none
    ∷ []

run-IsValid_example : IsValid (run (new none) calls)
run-IsValid_example = run-IsValid none calls

length-run-le_example : length (run (new none) calls).items ≤ max_entries + saved_values calls
length-run-le_example = length-run-le none calls

-- Four thousand and ninety-seven entries, each created later than those behind it.
abbrev crowd : ℕ → Dict StateEntry
crowd zero = []
crowd (suc n) = (suc n ∷ [], record zero_entry { created_at = suc n }) ∷ crowd n

crowd-lookup : (n k : ℕ) → n < k → lookup (k ∷ []) (crowd n) ≡ none
unfolding lookup ◌==◌
crowd-lookup zero k h = refl
crowd-lookup (suc n) k h = ground (arith, crowd-lookup n k)

crowd-Distinct : (n : ℕ) → Distinct (crowd n)
crowd-Distinct zero = tt
crowd-Distinct (suc n) = (crowd-lookup n (suc n) (omega arith), crowd-Distinct n)

crowd-KeysNonempty : (n : ℕ) → KeysNonempty (crowd n)
crowd-KeysNonempty zero = tt
crowd-KeysNonempty (suc n) = ((λ e. cc), crowd-KeysNonempty n)

sweep_oldest_first_example : 1 ≤ 2
unfolding lookup sweep evict oldest drop_expired is_expired erase ◌==◌
sweep_oldest_first_example =
    sweep_oldest_first 1000000 5000 (crowd 4097) (1 ∷ []) (2 ∷ [])
      (record zero_entry { created_at = 1 }) (record zero_entry { created_at = 2 })
      (crowd-KeysNonempty 4097) (crowd-Distinct 4097) refl refl refl refl

abbrev aged : Store
aged = record {
  ttl = 1000;
  items = (codes "s", record entry { correlation = record correlation { created_at = 1 } }) ∷ [];
}

abbrev renewed : StateEntry
renewed = record entry { correlation = record correlation { created_at = 2000 } }

load_state_loses_save_example :
    ((consume_correlation
        (record { ttl = 1000; items = (codes "s", renewed) ∷ [] })
        2500
        (some (browser (codes "b")))
        (codes "s")).1
      ≡ ok (some renewed.correlation))
    × ((consume_correlation
          (load_state_finish
            (record { ttl = 1000; items = (codes "s", renewed) ∷ [] })
            2400
            (codes "s")
            (load_state_read aged (codes "s"))).0
          2500
          (some (browser (codes "b")))
          (codes "s")).1
        ≡ ok none)
unfolding lookup is_expired binding_cookie_value ◌==◌
load_state_loses_save_example =
    load_state_loses_save aged (record { ttl = 1000; items = (codes "s", renewed) ∷ [] }) 2400 2500
      (some (browser (codes "b"))) (codes "s")
      (record entry { correlation = record correlation { created_at = 1 } }) renewed (λ e. cc) refl
      refl refl refl (inr refl)
