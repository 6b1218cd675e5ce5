-- ===== src/Base/Base64.antt =====
-- base64.RawURLEncoding of encoding/base64: the URL alphabet, without padding.
pub mod Encode
pub mod Decode
use Prim.Native.Nat.{ℕ, ◌+◌, ◌-◌, ◌*◌, ◌/◌, ◌%◌, ◌<◌, suc}
use mathlib.Core.Path.{◌≡◌, refl, ap, sym, ◌∙◌}
use mathlib.Core.Bool.{Bool, true, false, ◌&&◌, ◌||◌}
use native.Mathlib.Omega.{arith}
use lanyard.Base.Lists.{length, all}
use mathlib.Core.List.{List, [], ◌∷◌}
use lanyard.Base.Tests.{ltb, leb, eqb, if◌then◌else◌}
use lanyard.Base.Strings.{Text}

unfoldable pub digit : ℕ → ℕ
digit n =
    if ltb n 26
    then n + b'A'
    else if ltb n 52
    then n - 26 + b'a'
    else if ltb n 62
    then n - 52 + b'0'
    else if eqb n 62
    then b'-'
    else b'_'

unfoldable pub encode : List ℕ → Text
unfolding digit
encode [] = []
encode (a ∷ []) = digit (a / 4) ∷ digit (a % 4 * 16) ∷ []
encode (a ∷ b ∷ []) = digit (a / 4) ∷ digit (a % 4 * 16 + b / 16) ∷ digit (b % 16 * 4) ∷ []
encode (a ∷ b ∷ c ∷ r) =
    digit (a / 4)
    ∷ digit (a % 4 * 16 + b / 16)
    ∷ digit (b % 16 * 4 + c / 64)
    ∷ digit (c % 64)
    ∷ encode r

-- The characters of the alphabet.
abbrev pub in_alphabet : ℕ → Bool
in_alphabet c =
    leb b'A' c && leb c b'Z'
    || leb b'a' c && leb c b'z'
    || leb b'0' c && leb c b'9'
    || eqb c b'-'
    || eqb c b'_'

pub digit-in_alphabet : (n : ℕ) → in_alphabet (digit n) ≡ true
unfolding digit
digit-in_alphabet n = ground arith

-- The value of a character.
abbrev pub value : ℕ → ℕ
value c =
    if eqb c b'-'
    then 62
    else if eqb c b'_'
    then 63
    else if ltb c b'A'
    then c - b'0' + 52
    else if ltb c b'a'
    then c - b'A'
    else c - b'a' + 26

pub value-digit : (n : ℕ) → n < 64 → value (digit n) ≡ n
unfolding digit
value-digit n h = ground arith
