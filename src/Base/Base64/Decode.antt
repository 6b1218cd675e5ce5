-- ===== src/Base/Base64/Decode.antt =====
-- base64.RawURLEncoding.DecodeString: line ends are skipped, other bytes outside the alphabet and a
-- last quantum of one digit are errors, and the unused bits of the last digit are ignored.
use Prim.Native.Nat.{ℕ, ◌%◌}
use mathlib.Core.Path.{◌≡◌, refl, ap}
use mathlib.Core.Bool.{Bool, true, false, not, ◌&&◌, ◌||◌}
use mathlib.Core.Option.{Option, none, some}
use mathlib.Core.List.{List, [], ◌∷◌}
use native.Mathlib.Omega.{arith}
use lanyard.Base.Tests.{eqb, if◌then◌else◌}
use lanyard.Base.Lists.{length, all}
use lanyard.Base.Strings.{Text}
use lanyard.Base.Base64.{encode, in_alphabet}
use lanyard.Base.Base64.Encode.{decode, decode-encode, is_byte, length-encode, encode-in_alphabet}

abbrev is_line_end : ℕ → Bool
is_line_end c = eqb c 10 || eqb c 13

unfoldable pub skip_line_ends : Text → Text
skip_line_ends [] = []
skip_line_ends (c ∷ t) = let rest = skip_line_ends t in if is_line_end c then rest else c ∷ rest

unfoldable pub decode_string : Text → Option (List ℕ)
unfolding skip_line_ends
decode_string t =
    let s = skip_line_ends t in
    if all in_alphabet s && not (eqb (length s % 4) 1) then some (decode s) else none

skip_line_ends-alphabet : (t : Text) → all in_alphabet t ≡ true → skip_line_ends t ≡ t
unfolding skip_line_ends
skip_line_ends-alphabet [] h = refl
skip_line_ends-alphabet (c ∷ t) h =
    let rest : all in_alphabet t ≡ true = ground arith in
    let same = skip_line_ends-alphabet t rest in
    let ends : is_line_end c ≡ false = ground arith in rw (ends, same) refl

pub decode_string-encode :
    (bs : List ℕ) → all is_byte bs ≡ true → decode_string (encode bs) ≡ some bs
unfolding decode_string
decode_string-encode bs h =
    let inside = encode-in_alphabet bs in
    let size = length-encode bs in
    let quanta : eqb (length (encode bs) % 4) 1 ≡ false = ground arith in
    rw (skip_line_ends-alphabet (encode bs) inside)
      (rw (inside, quanta) (ap some (decode-encode bs h)))
