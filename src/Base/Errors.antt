-- ===== src/Base/Errors.antt =====
-- Go's pair of a value and an error: the value is read only where the error is nil.
use mathlib.Core.Path.{◌≡◌, refl}
use mathlib.Core.Logic.{◌⊎◌, inl, inr}
use mathlib.Core.Bool.{Bool, true, false}
use mathlib.Core.Option.{Option, none, some}

pub data Except {ℓ κ} (E : Type ℓ) (A : Type κ) : Type (ℓ ⊔ κ) where
  ok : A → Except E A
  err : E → Except E A

infixl 5 ◌>>=◌ ◌>>◌
abbrev pub ◌>>=◌ {ℓ κ μ} :
    {E : Type ℓ} {A : Type κ} {B : Type μ} → Except E A → (A → Except E B) → Except E B
ok a >>= f = f a
err e >>= f = err e

abbrev pub ◌>>◌ {ℓ κ} : {E : Type ℓ} {B : Type κ} → Except E (Unit {0}) → Except E B → Except E B
m >> k = m >>= λ _. k

-- `if bad { return e }`
abbrev pub fail_if {ℓ} : {E : Type ℓ} → Bool → E → Except E (Unit {0})
fail_if true e = err e
fail_if false e = ok tt

abbrev pub or_fail {ℓ κ} : {E : Type ℓ} {A : Type κ} → Option A → E → Except E A
or_fail none e = err e
or_fail (some a) e = ok a

pub Except-cases {ℓ κ} :
    {E : Type ℓ} {A : Type κ} (r : Except E A) → ((a : A) × (r ≡ ok a)) ⊎ ((e : E) × (r ≡ err e))
Except-cases (ok a) = inl (a, refl)
Except-cases (err e) = inr (e, refl)

-- What a chain that ended well has passed through.
pub >>=-eq-ok {ℓ κ μ} :
    {E : Type ℓ} {A : Type κ} {B : Type μ} (first : Except E A) (next : A → Except E B) {end : B}
    → (first >>= next) ≡ ok end
    → (between : A) × (first ≡ ok between) × (next between ≡ ok end)
>>=-eq-ok (ok x) next chain = (x, refl, chain)
>>=-eq-ok (err e) next chain = cc

-- Inversion of a guard that passed.
pub fail_if-ok {ℓ κ} :
    {E : Type ℓ} {B : Type κ} (b : Bool) (e : E) (k : Except E B) {x : B}
    → (fail_if b e >> k) ≡ ok x
    → (b ≡ false) × (k ≡ ok x)
fail_if-ok true e k h = cc
fail_if-ok false e k h = (refl, h)

pub fail_if-ok_last {ℓ} : {E : Type ℓ} (b : Bool) (e : E) → fail_if b e ≡ ok tt → b ≡ false
fail_if-ok_last true e h = cc
fail_if-ok_last false e h = refl

pub or_fail-eq-ok {ℓ κ} :
    {E : Type ℓ} {A : Type κ} (o : Option A) (e : E) {a : A} → or_fail o e ≡ ok a → o ≡ some a
or_fail-eq-ok none e h = cc
or_fail-eq-ok (some x) e h = cc

-- Inversion of an optional value that was there.
pub or_fail-ok {ℓ κ μ} :
    {E : Type ℓ} {A : Type κ} {B : Type μ} (o : Option A) (e : E) (k : A → Except E B) {x : B}
    → (or_fail o e >>= k) ≡ ok x
    → (a : A) × (o ≡ some a) × (k a ≡ ok x)
or_fail-ok none e k h = cc
or_fail-ok (some a) e k h = (a, refl, h)
