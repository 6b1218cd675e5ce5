-- ===== src/Rp/Tests/Tokens.antt =====
-- Runs of rp/idtoken.go on small inputs.
use lanyard.Base.{
  ◌≡◌, refl, ◌≢◌, ◌⊎◌, ◌↔◌, true, false, some, List, [], ◌∷◌, Text, codes, ne_of_==, ◌==◌, ok, err,
  equal_fold, count, trim_space, trim_left, trim_right, to_lower,
}
use lanyard.Base.Int.{int64, pos, ◌+ℤ◌}
use lanyard.Rp.{Rp, fapi2_security, audience_mismatch}
use lanyard.Rp.Jose.{Header, Claims}
use lanyard.Rp.IdToken.{FlowIdentity, validate_claims, unix}
use lanyard.Rp.IdToken.Valid.{IsAccepted, validate_claims_iff}
use lanyard.Rp.IdToken.Verify.{
  validate_id_token, validate_parsed, verify_without_kid, validate_signed, verify_signed,
  verify_or_retry, provider_keys, decrypt_if_needed, outside, supported_algs, none_alg, scan,
  usable, validate_unsecured,
}
use lanyard.Rp.IdToken.Sound.{matching, verify_without_kid_iff}
use lanyard.Rp.IdToken.Policy.{IsSigned, IsUnsecured, validate_id_token_sound}
use lanyard.Rp.IdToken.Profiles.{fapi_id_token-IsSigned, unsecured_ignores_flow_client}
use lanyard.Rp.Tests.{client, jose, jose_of, header, claims, key, keys, key_sets, now, flow}

validate_claims_iff_example :
    (validate_claims client now claims (codes "n") flow ≡ ok tt)
    ↔ IsAccepted client now claims (codes "n") flow
validate_claims_iff_example = validate_claims_iff client now claims (codes "n") flow

verify_without_kid_iff_example :
    (verify_without_kid jose (header, claims) keys ≡ ok claims)
    ↔ (matching (jose.id_claims (header, claims)) (key ∷ []) ≡ claims ∷ [])
verify_without_kid_iff_example =
    verify_without_kid_iff jose (header, claims) keys (key ∷ []) claims refl

abbrev raw : Text
raw = codes "a.b.c"

validate_id_token_sound_example :
    (plain : Text) × (t : Header × Claims) × (h : Header) × (hs : List Header) × (decrypt_if_needed
        jose client raw
      ≡ ok plain)
    × (jose.parse_signed plain supported_algs ≡ some t)
    × (jose.headers t ≡ h ∷ hs)
    × (outside (codes "ES256" ∷ []) h.algorithm ≡ false)
    × (((h.algorithm ≡ none_alg) × IsUnsecured jose client now t claims (codes "n"))
        ⊎ ((h.algorithm ≢ none_alg)
            × IsSigned jose client now key_sets t claims (codes "n") (codes "op/keys") flow))
unfolding validate_id_token decrypt_if_needed count validate_parsed outside equal_fold to_lower
    validate_signed provider_keys trim_space trim_left trim_right verify_or_retry verify_signed
    verify_without_kid scan usable validate_unsecured validate_claims unix int64 ◌+ℤ◌ ◌==◌
validate_id_token_sound_example =
    validate_id_token_sound jose client now key_sets raw (codes "n") (codes "op/keys")
      (codes "ES256" ∷ []) flow claims refl

abbrev fapi_client : Rp
fapi_client = record client { profile = fapi2_security }

abbrev recent : Claims
recent = record claims { iat = some (pos 990) }

fapi_id_token-IsSigned_example :
    (t : Header × Claims) × (h : Header) × (hs : List Header) × ((jose_of header recent).headers t
      ≡ h ∷ hs)
    × ((h.algorithm ≡ codes "PS256") ⊎ (h.algorithm ≡ codes "ES256"))
    × IsSigned (jose_of header recent) fapi_client now key_sets t recent (codes "n") [] flow
unfolding validate_id_token decrypt_if_needed count validate_parsed outside equal_fold to_lower
    validate_signed provider_keys trim_space trim_left trim_right verify_or_retry verify_signed
    verify_without_kid scan usable validate_unsecured validate_claims unix int64 ◌+ℤ◌ ◌==◌
fapi_id_token-IsSigned_example =
    fapi_id_token-IsSigned (jose_of header recent) fapi_client now key_sets raw (codes "n") [] []
      flow recent refl refl

abbrev open_client : Rp
open_client = record client { allow_unsecured_id_tokens = true }

abbrev unsigned : Header
unsigned = record { algorithm = none_alg; key_id = [] }

abbrev other : FlowIdentity
other = record { issuer = codes "op"; client_id = codes "you"; client_secret = [] }

abbrev for_other : Claims
for_other = record claims { aud = codes "you" ∷ [] }

unsecured_ignores_flow_client_example :
    validate_parsed
      (jose_of unsigned for_other)
      open_client
      now
      key_sets
      (unsigned, for_other)
      unsigned
      (codes "n")
      []
      []
      other
    ≡ err audience_mismatch
unfolding outside ◌==◌
unsecured_ignores_flow_client_example =
    unsecured_ignores_flow_client (jose_of unsigned for_other) open_client now key_sets
      (unsigned, for_other) unsigned (codes "n") [] [] other for_other refl refl refl refl refl refl
      (λ e. cc) refl (ne_of_== (codes "you") (codes "me") refl)
