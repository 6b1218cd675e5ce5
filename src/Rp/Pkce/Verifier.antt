-- ===== src/Rp/Pkce/Verifier.antt =====
-- rp/pkce.go: which code verifiers are valid, and what is generated.
use Prim.Native.Nat.{zero, ◌≤◌, ◌<◌, suc}
use lanyard.Base.{
  ℕ, ◌≡◌, refl, ap, sym, ◌∙◌, ◌↔◌, Bool, true, false, not, ◌&&◌, ◌||◌, some, List, [], ◌∷◌, Text,
  eqb, ltb, any, all, length, Except, ok, arith, Bool-cases, >>=-eq-ok, inl, inr,
}
use lanyard.Base.Base64.{encode, in_alphabet}
use lanyard.Base.Base64.Encode.{length-encode, encode-in_alphabet, is_byte, encode_injective}
use lanyard.Rp.Pkce.{
  validate_code_verifier, generate_code_verifier, code_challenge_s256, is_allowed, allowed,
  min_length, max_length, PkceError,
}

-- The unreserved characters of RFC 7636: letters, digits, `-`, `.`, `_` and `~`.
abbrev pub unreserved : ℕ → Bool
unreserved c = in_alphabet c || eqb c b'.' || eqb c b'~'

abbrev same : Bool → Bool → Bool
same true b = b
same false b = not b

same→eq : (a b : Bool) → same a b ≡ true → a ≡ b
same→eq a b h = ground arith

-- p holds below n.
abbrev below : ℕ → (ℕ → Bool) → Bool
below zero p = true
below (suc n) p = p n && below n p

below-lt : (n : ℕ) (p : ℕ → Bool) (c : ℕ) → below n p ≡ true → c < n → p c ≡ true
below-lt zero p c h lt = absurd (omega arith)
below-lt (suc n) p c h lt = elim (Bool-cases (eqb c n)) [
  | inl e ↦
      let same_place : c ≡ n = ground arith in
      let at_n : p n ≡ true = ground arith in ap p same_place ∙ at_n
  | inr e ↦ below-lt n p c (ground arith) (ground arith)
]

any-above :
    (n c : ℕ) (t : Text) → all (λ a. ltb a n) t ≡ true → n ≤ c → any (λ a. eqb a c) t ≡ false
any-above n c [] h le = refl
any-above n c (a ∷ t) h le = ground (arith, any-above n c t)

all_below : below 128 (λ d. same (is_allowed d) (unreserved d)) ≡ true
unfolding is_allowed allowed
all_below = refl

ascii : (c : ℕ) → c < 128 → is_allowed c ≡ unreserved c
ascii c lt = same→eq _ _ (below-lt 128 (λ d. same (is_allowed d) (unreserved d)) c all_below lt)

is_allowed_lem : (c : ℕ) → is_allowed c ≡ unreserved c
unfolding is_allowed allowed
is_allowed_lem c = elim (Bool-cases (ltb c 128)) [
  | inl lt ↦ ascii c (ground arith)
  | inr ge ↦
      let none_here = any-above 128 c allowed refl (ground arith) in
      let not_here : unreserved c ≡ false = ground arith in none_here ∙ sym not_here
]

all_lem : (t : Text) → all is_allowed t ≡ all unreserved t
all_lem [] = refl
all_lem (c ∷ t) = rw (is_allowed_lem c, all_lem t)

-- A code verifier is valid just where it has 43 to 128 characters, all of them unreserved.
pub validate_code_verifier_iff :
    (t : Text)
    → (validate_code_verifier t ≡ ok tt)
      ↔ ((43 ≤ length t) × (length t ≤ 128) × (all unreserved t ≡ true))
unfolding validate_code_verifier min_length max_length
validate_code_verifier_iff t = rw (all_lem t, validate_code_verifier) (ground arith)

alphabet-unreserved : (t : Text) → all in_alphabet t ≡ true → all unreserved t ≡ true
alphabet-unreserved [] h = refl
alphabet-unreserved (c ∷ t) h = ground (arith, alphabet-unreserved t)

encode-valid : (bs : List ℕ) → length bs ≡ 32 → validate_code_verifier (encode bs) ≡ ok tt
encode-valid bs h =
    let size = length-encode bs in
    (validate_code_verifier_iff (encode bs)).1
      (omega arith, omega arith, alphabet-unreserved (encode bs) (encode-in_alphabet bs))

-- 32 random bytes always give a code verifier: it has 43 characters and is valid, and a hash of 32
-- bytes always gives its challenge, of 43 characters too.
pub generate_code_verifier_lem :
    (sum256 : Text → List ℕ) (bs : List ℕ)
    → length bs ≡ 32
    → length (sum256 (encode bs)) ≡ 32
    → (verifier challenge : Text) × (generate_code_verifier (some bs) ≡ ok verifier)
      × (length verifier ≡ 43)
      × (validate_code_verifier verifier ≡ ok tt)
      × (code_challenge_s256 sum256 verifier ≡ ok challenge)
      × (length challenge ≡ 43)
unfolding generate_code_verifier code_challenge_s256
generate_code_verifier_lem sum256 bs h k =
    let valid = encode-valid bs h in
    let size = length-encode bs in
    let size' = length-encode (sum256 (encode bs)) in
    (
      encode bs,
      encode (sum256 (encode bs)),
      rw valid refl,
      omega arith,
      valid,
      rw valid refl,
      omega arith,
    )

made :
    (xs : List ℕ) (verifier : Text)
    → generate_code_verifier (some xs) ≡ ok verifier
    → encode xs ≡ verifier
unfolding generate_code_verifier
made xs verifier g =
    let (u, valid, same_text) =
      >>=-eq-ok (validate_code_verifier (encode xs)) (λ u. ok (encode xs)) g in
    let e : ◌≡◌ {A = Except PkceError Text} (ok (encode xs)) (ok verifier) = same_text in
    ground arith

-- Different random bytes give different code verifiers: none of their 256 bits is lost.
pub generate_code_verifier_injective :
    (bs cs : List ℕ) (verifier : Text)
    → all is_byte bs ≡ true
    → all is_byte cs ≡ true
    → generate_code_verifier (some bs) ≡ ok verifier
    → generate_code_verifier (some cs) ≡ ok verifier
    → bs ≡ cs
generate_code_verifier_injective bs cs verifier hb hc g g' =
    encode_injective bs cs hb hc (made bs verifier g ∙ sym (made cs verifier g'))
