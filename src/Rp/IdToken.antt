-- ===== src/Rp/IdToken.antt =====
-- rp/idtoken.go: the claims of an ID token.
pub mod Valid
pub mod Verify
pub mod Sound
pub mod Policy
pub mod Profiles
pub mod Hashes
use lanyard.Base.{
  ℕ, ◌+◌, ◌*◌, Bool, true, false, not, ◌&&◌, Option, none, some, List, [], ◌∷◌, Text, ◌==◌, ltb,
  any, is_empty, length, Except, ok, err, ◌>>=◌, ◌>>◌, fail_if, or_fail,
}
use lanyard.Base.Int.{ℤ, pos, pos_part, neg_part, sub_ℕ, ltb_ℤ, ◌+ℤ◌, int64}
use lanyard.Http.{Time, Duration, second}
use lanyard.Rp.{
  Rp, is_fapi, IdTokenProblem, issuer_mismatch, no_subject, no_audience, audience_mismatch, no_exp,
  no_iat, token_expired, iat_in_future, iat_too_old, nonce_mismatch, azp_required,
}
use lanyard.Rp.Jose.{Claims}

-- `flowIdentity`
pub record FlowIdentity : Type 0 where
  pub issuer : Text
  pub client_id : Text
  pub client_secret : Text

-- The seconds of time.Unix(s, 0) since Go's zero time, which lies 62135596800 seconds before the epoch:
-- an int64.
abbrev seconds : ℤ → ℤ
seconds s = int64 (s +ℤ pos 62135596800)

-- time.Unix(s, 0)
unfoldable pub unix : ℤ → ℤ
unix s = sub_ℕ (pos_part (seconds s) * second) (neg_part (seconds s) * second)

-- `validateIDTokenClaimsAs` at the time `now`
unfoldable pub validate_claims :
    Rp → Time → Claims → Text → FlowIdentity → Except IdTokenProblem (Unit {0})
validate_claims r now claims expected_nonce id = do
  fail_if (not (claims.issuer == id.issuer)) issuer_mismatch
  fail_if (claims.subject == []) no_subject
  fail_if (is_empty claims.aud) no_audience
  fail_if (not (any (λ aud. aud == id.client_id) claims.aud)) audience_mismatch
  exp ← or_fail claims.exp no_exp
  iat ← or_fail claims.iat no_iat
  fail_if (ltb_ℤ (unix exp +ℤ pos r.clock_skew) (pos now)) token_expired
  fail_if (ltb_ℤ (pos now +ℤ pos r.clock_skew) (unix iat)) iat_in_future
  fail_if (is_fapi r.profile && ltb_ℤ (unix iat) (sub_ℕ now r.clock_skew)) iat_too_old
  fail_if (not (expected_nonce == []) && not (claims.nonce == expected_nonce)) nonce_mismatch
  fail_if (ltb 1 (length claims.aud) && not (claims.azp == id.client_id)) azp_required
