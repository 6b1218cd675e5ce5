-- ===== src/Rp/IdToken/Hashes.antt =====
-- rp/idtoken.go and rp/callback.go: the hashes of an ID token in the authorization response.
use lanyard.Base.{
  ℕ, zero, suc, ◌/◌, false, not, Option, none, some, List, [], ◌∷◌, Text, codes, ◌==◌, trim_space,
  has_suffix, length, Except, ok, err, ◌>>=◌, ◌>>◌, fail_if, or_fail, if◌then◌else◌,
}
use lanyard.Base.Base64.{encode}
use lanyard.Base.Int.{sub_ℕ, ltb_ℤ}
use lanyard.Http.{Time}
use lanyard.Rp.{
  Rp, IdTokenProblem, no_hash, unsupported_hash, hash_mismatch, not_parsed, no_headers, iat_too_old,
}
use lanyard.Rp.Jose.{Jose, Header, Claims, HashAlg, sha256, sha384, sha512}
use lanyard.Rp.IdToken.{FlowIdentity, unix}
use lanyard.Rp.IdToken.Verify.{
  KeySets, supported_algs, first_header, decrypt_if_needed, validate_id_token,
}

abbrev take : ℕ → List ℕ → List ℕ
take zero xs = []
take (suc n) [] = []
take (suc n) (x ∷ xs) = x ∷ take n xs

-- The hash that the suffix of the algorithm names.
unfoldable pub hash_of : Text → Option HashAlg
hash_of alg =
    if has_suffix alg (codes "256")
    then some sha256
    else if has_suffix alg (codes "384")
    then some sha384
    else if has_suffix alg (codes "512")
    then some sha512
    else none

module _ (j : Jose) where
  open j use {headers, parse_signed, unsafe_claims, hash}

  -- The left half of the hash of a value, in base64.
  unfoldable pub half_hash : HashAlg → Text → Text
  half_hash a value = let sum = hash a value in encode (take (length sum / 2) sum)

  unfoldable pub validate_hash_claim : Text → Text → Text → Except IdTokenProblem (Unit {0})
  validate_hash_claim alg value claim = do
    fail_if (trim_space claim == []) no_hash
    a ← or_fail (hash_of alg) unsupported_hash
    fail_if (not (half_hash a value == claim)) hash_mismatch

  unfoldable pub validate_hashes :
      Rp → Time → Text → Text → Claims → Claims → Header → Except IdTokenProblem Claims
  validate_hashes r now code state claims raw_claims h = do
    validate_hash_claim h.algorithm code raw_claims.c_hash
    validate_hash_claim h.algorithm state raw_claims.s_hash
    fail_if
        (elim raw_claims.iat [
          | none ↦ false
          | some iat ↦ ltb_ℤ (unix iat) (sub_ℕ now r.clock_skew)
        ])
        iat_too_old
    ok claims

  -- `validateAuthorizationResponseIDTokenAs`, with the clock read at `now` and at `later`. A token that
  -- has passed the first step has a header.
  unfoldable pub validate_response_id_token :
      Rp
      → Time
      → Time
      → KeySets
      → Text
      → Text
      → Text
      → Text
      → Text
      → List Text
      → FlowIdentity
      → Except IdTokenProblem Claims
  validate_response_id_token r now later sets raw nonce code state jwks_url provider_algs id = do
    claims ← validate_id_token j r now sets raw nonce jwks_url provider_algs id
    plain ← decrypt_if_needed j r raw
    t ← or_fail (parse_signed plain supported_algs) not_parsed
    raw_claims ← or_fail (unsafe_claims t) not_parsed
    first_header (headers t) (err no_headers) (validate_hashes r later code state claims raw_claims)
