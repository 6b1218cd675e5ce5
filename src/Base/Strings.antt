-- ===== src/Base/Strings.antt =====
-- A Go string as the list of its bytes, with the functions of package strings that the code calls.
-- TrimSpace, ToLower and EqualFold are those of ASCII text.
use Prim.Native.Nat.{ℕ, suc, ◌+◌}
use Prim.Native.Char.{code}
use Prim.Native.String.{String}
use mathlib.Core.Path.{◌≡◌, refl}
use mathlib.Core.Logic.{◌↔◌, ◌≢◌}
use mathlib.Core.Bool.{Bool, true, false, ◌&&◌, ◌||◌}
use mathlib.Core.List.{List, [], ◌∷◌, reverse}
use native.Mathlib.Omega.{arith}
use lanyard.Base.Tests.{leb, eqb, if◌then◌else◌}
use lanyard.Base.Lists.{is_empty}

abbrev pub Text : Type 0
Text = List ℕ

abbrev pub codes : String → Text
codes String.[] = []
codes (String.◌∷◌ c s) = code c ∷ codes s

infix 50 ◌==◌
unfoldable pub ◌==◌ : Text → Text → Bool
◌==◌ [] [] = true
◌==◌ [] (b ∷ t) = false
◌==◌ (a ∷ s) [] = false
◌==◌ (a ∷ s) (b ∷ t) = eqb a b && s == t

pub eq_refl : (s : Text) → (s == s) ≡ true
unfolding ◌==◌
eq_refl [] = refl
eq_refl (a ∷ s) = ground (arith, eq_refl s)

pub eq_of_== : (s t : Text) → (s == t) ≡ true → s ≡ t
unfolding ◌==◌
eq_of_== [] [] h = refl
eq_of_== [] (b ∷ t) h = cc
eq_of_== (a ∷ s) [] h = cc
eq_of_== (a ∷ s) (b ∷ t) h = ground (arith, eq_of_== s t)

pub eq_iff : (s t : Text) → ((s == t) ≡ true) ↔ (s ≡ t)
eq_iff s t = (eq_of_== s t, λ e. rw e (eq_refl t))

pub ne_of_== : (s t : Text) → (s == t) ≡ false → s ≢ t
ne_of_== s t h e = ground (arith, eq_iff s t)

-- The whitespace of unicode.IsSpace below 128.
abbrev pub is_space : ℕ → Bool
is_space c = eqb c 32 || leb 9 c && leb c 13

unfoldable pub trim_left : Text → Text
trim_left [] = []
trim_left (c ∷ s) = let rest = trim_left s in if is_space c then rest else c ∷ s

unfoldable pub trim_right : Text → Text
trim_right [] = []
trim_right (c ∷ s) = let rest = trim_right s in if is_empty rest && is_space c then [] else c ∷ rest

-- strings.TrimSpace
unfoldable pub trim_space : Text → Text
unfolding trim_left trim_right
trim_space s = trim_right (trim_left s)

abbrev pub lower : ℕ → ℕ
lower c = if leb 65 c && leb c 90 then c + 32 else c

-- strings.ToLower
unfoldable pub to_lower : Text → Text
to_lower [] = []
to_lower (c ∷ s) = lower c ∷ to_lower s

-- strings.EqualFold
unfoldable pub equal_fold : Text → Text → Bool
unfolding to_lower ◌==◌
equal_fold s t = to_lower s == to_lower t

-- strings.HasPrefix
unfoldable pub has_prefix : Text → Text → Bool
has_prefix s [] = true
has_prefix [] (b ∷ t) = false
has_prefix (a ∷ s) (b ∷ t) = eqb a b && has_prefix s t

-- strings.HasSuffix
unfoldable pub has_suffix : Text → Text → Bool
unfolding has_prefix
has_suffix s t = has_prefix (reverse s) (reverse t)

-- strings.Contains
unfoldable pub contains : Text → Text → Bool
unfolding has_prefix
contains [] t = is_empty t
contains (a ∷ s) t = has_prefix (a ∷ s) t || contains s t

-- strings.Count of a text of one byte
unfoldable pub count : Text → ℕ → ℕ
count [] b = 0
count (a ∷ s) b = let rest = count s b in if eqb a b then suc rest else rest
