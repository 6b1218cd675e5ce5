-- ===== src/Rp/Pkce.antt =====
-- rp/pkce.go: code verifiers and their S256 challenges.
pub mod Verifier
use lanyard.Base.{
  ℕ, ◌≡◌, Bool, true, false, not, ◌||◌, Option, none, some, List, [], ◌∷◌, Text, codes, eqb, ltb,
  any, all, length, Except, ok, err, ◌>>=◌, ◌>>◌, fail_if,
}
use lanyard.Base.Base64.{encode}

-- Reading the randomness, or the verifier, fails.
pub data PkceError : Type 0 where
  not_read bad_length bad_character : PkceError

unfoldable pub allowed : Text
allowed = codes "ABCDEFGHIJKLMNOPQRSTUVWXYZabcdefghijklmnopqrstuvwxyz0123456789-._~"

unfoldable pub min_length : ℕ
min_length = 43

unfoldable pub max_length : ℕ
max_length = 128

-- `strings.ContainsRune(allowed, r)`: a byte of a rune outside ASCII is not in it either.
unfoldable pub is_allowed : ℕ → Bool
is_allowed c = any (λ a. eqb a c) allowed

-- `validateCodeVerifier`
unfoldable pub validate_code_verifier : Text → Except PkceError (Unit {0})
validate_code_verifier verifier = do
  fail_if (ltb (length verifier) min_length || ltb max_length (length verifier)) bad_length
  fail_if (not (all is_allowed verifier)) bad_character

-- `generateCodeVerifier`: what reading 32 bytes of the reader gives, `none` where it fails.
unfoldable pub generate_code_verifier : Option (List ℕ) → Except PkceError Text
generate_code_verifier none = err not_read
generate_code_verifier (some buf) = do u ← validate_code_verifier (encode buf); ok (encode buf)

-- `codeChallengeS256`, over the hash of crypto/sha256
unfoldable pub code_challenge_s256 : (Text → List ℕ) → Text → Except PkceError Text
code_challenge_s256 sum256 verifier = do
  u ← validate_code_verifier verifier
  ok (encode (sum256 verifier))
