-- ===== src/Store/Cookie/Carried.antt =====
-- rp/store/cookie/store.go: what of a correlation the cookie carries.
use lanyard.Base.{
  ℕ, suc, ◌-◌, ◌*◌, ◌/◌, ◌≡◌, refl, inl, inr, true, arith, [], ltb, leb, if◌then◌else◌, Bool-cases,
}
use lanyard.Base.Int.{sub_ℕ}
use lanyard.Http.{Time, second}
use lanyard.Store.{CallbackCorrelation}
use lanyard.Store.Cookie.Payload.{unix_seconds, unix_to_time, to_payload, from_payload, epoch}

-- A time after the epoch, cut to its second; the epoch and what lies before it become the zero time.
abbrev pub whole_seconds : Time → Time
whole_seconds t = if ltb epoch (t / second) then t / second * second else 0

-- The time of a whole number of seconds since Go's zero time, by way of the epoch.
unix_to_time-sub_ℕ :
    (a : ℕ) → unix_to_time (sub_ℕ a epoch) ≡ (if ltb epoch a then a * second else 0)
unfolding unix_to_time
unix_to_time-sub_ℕ a = elim (Bool-cases (ltb epoch a)) [
  | inl after ↦
      let up : leb epoch a ≡ true = ground arith in
      let some_left : a - epoch ≡ suc (a - epoch - 1) = ground arith in
      rw (after, up) (rw some_left (ground arith))
  | inr before ↦ elim (Bool-cases (leb epoch a)) [
    | inl at ↦ let none_left : a - epoch ≡ 0 = ground arith in rw (before, at) (rw none_left refl)
    | inr under ↦ rw (before, under) refl
  ]
]

pub unix_to_time-unix_seconds : (t : Time) → unix_to_time (unix_seconds t) ≡ whole_seconds t
unfolding unix_seconds
unix_to_time-unix_seconds t = unix_to_time-sub_ℕ (t / second)

-- What the cookie gives back of a correlation.
abbrev pub carried : CallbackCorrelation → CallbackCorrelation
carried c = record c {
  created_at = whole_seconds c.created_at;
  expiry = whole_seconds c.expiry;
  client_id = [];
  client_secret = [];
}

pub from_payload-to_payload : (c : CallbackCorrelation) → from_payload (to_payload c) ≡ carried c
unfolding from_payload to_payload
from_payload-to_payload c =
    let made = unix_to_time-unix_seconds c.created_at in
    let ends = unix_to_time-unix_seconds c.expiry in cc
