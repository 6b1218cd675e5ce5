-- ===== src/Base/Base64/Encode.antt =====
-- base64.RawURLEncoding: the length, the alphabet and the loss-free coding of the text.
use Prim.Native.Nat.{ℕ, ◌+◌, ◌*◌, ◌/◌, ◌%◌, ◌<◌}
use mathlib.Core.Path.{◌≡◌, refl, ap, sym, ◌∙◌}
use mathlib.Core.Bool.{Bool, true}
use mathlib.Core.List.{List, [], ◌∷◌}
use native.Mathlib.Omega.{arith}
use lanyard.Base.Tests.{ltb}
use lanyard.Base.Lists.{length, all}
use lanyard.Base.Strings.{Text}
use lanyard.Base.Base64.{digit, encode, in_alphabet, digit-in_alphabet, value, value-digit}

pub length-encode : (bs : List ℕ) → length (encode bs) ≡ (4 * length bs + 2) / 3
unfolding encode
length-encode [] = refl
length-encode (a ∷ []) = refl
length-encode (a ∷ b ∷ []) = refl
length-encode (a ∷ b ∷ c ∷ r) = omega (arith, length-encode r)

pub encode-in_alphabet : (bs : List ℕ) → all in_alphabet (encode bs) ≡ true
unfolding encode
encode-in_alphabet [] = refl
encode-in_alphabet (a ∷ []) = rw (digit-in_alphabet (a / 4), digit-in_alphabet (a % 4 * 16))
encode-in_alphabet (a ∷ b ∷ []) = rw (
  digit-in_alphabet (a / 4),
  digit-in_alphabet (a % 4 * 16 + b / 16),
  digit-in_alphabet (b % 16 * 4),
)
encode-in_alphabet (a ∷ b ∷ c ∷ r) = rw (
  digit-in_alphabet (a / 4),
  digit-in_alphabet (a % 4 * 16 + b / 16),
  digit-in_alphabet (b % 16 * 4 + c / 64),
  digit-in_alphabet (c % 64),
  encode-in_alphabet r,
)

abbrev pub is_byte : ℕ → Bool
is_byte b = ltb b 256

abbrev pub decode : Text → List ℕ
decode (p ∷ q ∷ []) = (value p * 4 + value q / 16) ∷ []
decode (p ∷ q ∷ r ∷ []) = (value p * 4 + value q / 16) ∷ (value q % 16 * 16 + value r / 4) ∷ []
decode (p ∷ q ∷ r ∷ s ∷ t) =
    (value p * 4 + value q / 16)
    ∷ (value q % 16 * 16 + value r / 4)
    ∷ (value r % 4 * 64 + value s)
    ∷ decode t
decode _ = []

first :
    (a q : ℕ)
    → a < 256
    → q < 64
    → q / 16 ≡ a % 4
    → value (digit (a / 4)) * 4 + value (digit q) / 16 ≡ a
first a q h hq e = omega (arith, value-digit (a / 4) (omega arith), value-digit q hq)

second :
    (b q r : ℕ)
    → b < 256
    → q < 64
    → r < 64
    → q % 16 ≡ b / 16
    → r / 4 ≡ b % 16
    → value (digit q) % 16 * 16 + value (digit r) / 4 ≡ b
second b q r h hq hr e f = omega (arith, value-digit q hq, value-digit r hr)

third :
    (c r : ℕ)
    → c < 256
    → r < 64
    → r % 4 ≡ c / 64
    → value (digit r) % 4 * 64 + value (digit (c % 64)) ≡ c
third c r h hr e = omega (arith, value-digit r hr, value-digit (c % 64) (omega arith))

cons_eq : {x y : ℕ} {s t : List ℕ} → x ≡ y → s ≡ t → x ∷ s ≡ y ∷ t
cons_eq e f = cc

pub decode-encode : (bs : List ℕ) → all is_byte bs ≡ true → decode (encode bs) ≡ bs
unfolding encode
decode-encode [] h = refl
decode-encode (a ∷ []) h =
    let ha : a < 256 = ground arith in
    cons_eq (first a (a % 4 * 16) ha (omega arith) (omega arith)) refl
decode-encode (a ∷ b ∷ []) h =
    let ha : a < 256 = ground arith in
    let hb : b < 256 = ground arith in
    cons_eq (first a (a % 4 * 16 + b / 16) ha (omega arith) (omega arith)) (
      cons_eq
        (second b (a % 4 * 16 + b / 16) (b % 16 * 4) hb (omega arith) (omega arith) (omega arith)
          (omega arith))
        refl)
decode-encode (a ∷ b ∷ c ∷ r) h =
    let ha : a < 256 = ground arith in
    let hb : b < 256 = ground arith in
    let hc : c < 256 = ground arith in
    let hr : all is_byte r ≡ true = ground arith in
    cons_eq (first a (a % 4 * 16 + b / 16) ha (omega arith) (omega arith)) (
      cons_eq
        (second b (a % 4 * 16 + b / 16) (b % 16 * 4 + c / 64) hb (omega arith) (omega arith)
          (omega arith) (omega arith))
        (cons_eq (third c (b % 16 * 4 + c / 64) hc (omega arith) (omega arith))
          (decode-encode r hr)))

-- Equal texts come from equal bytes.
pub encode_injective :
    (bs cs : List ℕ)
    → all is_byte bs ≡ true
    → all is_byte cs ≡ true
    → encode bs ≡ encode cs
    → bs ≡ cs
encode_injective bs cs hb hc e = sym (decode-encode bs hb) ∙ ap decode e ∙ decode-encode cs hc
