-- ===== src/Rp.antt =====
-- The configuration and the error values of package rp: rp/rp.go, rp/client_config.go, rp/errors.go.
pub mod Jose
pub mod IdToken
pub mod Jarm
pub mod AuthMethod
pub mod Endpoints
pub mod Pkce
pub mod CallbackParams
pub mod Flow
pub mod Callback
pub mod Grant
pub mod DpopNonce
pub mod Redirects
pub mod Dpop
pub mod Merge
pub mod Options
pub mod Defaults
pub mod Construct
pub mod RequestObject
pub mod UrlOptions
pub mod AuthRequest
mod Tests
use lanyard.Base.{Bool, true, false, Option, List, Text, ℕ, codes}
use lanyard.Http.{Time, Duration}
use lanyard.Metadata.{Provider}

-- `profileType`
pub data Profile : Type 0 where
  oidc oauth2 fapi1_adv fapi2_security fapi2_message_signing plain_fapi : Profile

abbrev pub is_fapi : Profile → Bool
is_fapi fapi1_adv = true
is_fapi fapi2_security = true
is_fapi fapi2_message_signing = true
is_fapi plain_fapi = true
is_fapi _ = false

pub data SenderConstraint : Type 0 where
  unconstrained mtls dpop : SenderConstraint

pub data RequestMethod : Type 0 where
  plain signed_non_repudiation : RequestMethod

pub data DiscoveryMode : Type 0 where
  discovery_auto discovery_oidc discovery_oauth2 discovery_disabled : DiscoveryMode

-- A crypto.PrivateKey: its name, and the bits of the modulus of an RSA key.
pub record PrivateKey : Type 0 where
  pub key : Text
  pub rsa_bits : Option ℕ

-- A ClientKeyProvider: its private key, `none` where that is nil, whether it has a TLS certificate, and
-- the algorithm that it signs with.
pub record KeyProvider : Type 0 where
  pub private_key : Option PrivateKey
  pub has_certificate : Bool
  pub signing_algorithm : Text

-- Why an ID token is refused.
pub data IdTokenProblem : Type 0 where
  no_decryption_key not_decrypted not_parsed no_headers alg_not_advertised : IdTokenProblem
  unsecured no_key_set key_not_found bad_signature missing_kid : IdTokenProblem
  issuer_mismatch no_subject no_audience audience_mismatch no_exp no_iat : IdTokenProblem
  token_expired iat_in_future iat_too_old nonce_mismatch azp_required : IdTokenProblem
  no_hash unsupported_hash hash_mismatch absent : IdTokenProblem

-- The errors, by the sentinel that errors.Is finds in them.
pub data RpError : Type 0 where
  invalid_configuration invalid_state missing_code token_exchange_failed : RpError
  auth_method_not_supported user_info_validation_failed refresh_token_failed : RpError
  authorization_failed : Text → Text → RpError
  invalid_grant_id : Text → RpError
  id_token_validation_failed : IdTokenProblem → RpError

-- The fields of RP and its clientConfig that the modelled code reads; an AuthMethod is a string.
pub record Rp : Type 0 where
  pub issuer : Text
  pub client_id : Text
  pub client_secret : Text
  pub scopes : List Text
  pub scopes_explicit : Bool
  pub auth_method : Text
  pub resources : List Text
  pub claims_parameter : Text
  pub option_errors : List RpError
  pub provider : Provider
  pub provider_set : Bool
  pub configured_provider : Provider
  pub configured_provider_set : Bool
  pub client_key : Option KeyProvider
  pub resolved_auth_method : Text
  pub allow_method_fallback : Bool
  pub sender_constrain : SenderConstraint
  pub redirect_uri : Text
  pub user_info_token_transport : Text
  pub require_par : Bool
  pub require_par_explicit : Bool
  pub allow_unsecured_id_tokens : Bool
  pub response_mode : Text
  pub response_mode_explicit : Bool
  pub response_type : Text
  pub response_type_explicit : Bool
  pub request_method : RequestMethod
  pub request_method_explicit : Bool
  pub request_method_raw : Text
  pub request_uri_handler : Option (Text → Option Text)
  pub validate_response_issuer : Bool
  pub validate_response_issuer_set : Bool
  pub profile : Profile
  pub profile_explicit : Bool
  pub discovery_mode : DiscoveryMode
  pub discovery_mode_explicit : Bool
  pub clock_skew : Duration
  pub authorization_details : Text
