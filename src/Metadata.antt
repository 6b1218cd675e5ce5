-- ===== src/Metadata.antt =====
-- metadata/provider.go and metadata/authorization_server.go: the provider document.
pub mod Validate
pub mod Discovery
mod Tests
use lanyard.Base.{Bool, Option, none, List, [], Text}

-- MTLSEndpointAliases
pub record MtlsAliases : Type 0 where
  pub token_endpoint : Text
  pub userinfo_endpoint : Text
  pub registration_endpoint : Text
  pub pushed_authorization_request_endpoint : Text
  pub introspection_endpoint : Text

abbrev pub no_aliases : MtlsAliases
no_aliases = record {
  token_endpoint = [];
  userinfo_endpoint = [];
  registration_endpoint = [];
  pushed_authorization_request_endpoint = [];
  introspection_endpoint = [];
}

-- The fields of Provider, and of the AuthorizationServer that it embeds, that the modelled code reads or
-- merges. A list that is nil is the empty list, and Raw stands for both records' raw documents.
pub record Provider : Type 0 where
  pub issuer : Text
  pub authorization_endpoint : Text
  pub token_endpoint : Text
  pub jwks_uri : Text
  pub registration_endpoint : Text
  pub introspection_endpoint : Text
  pub userinfo_endpoint : Text
  pub pushed_authorization_request_endpoint : Text
  pub grant_management_endpoint : Text
  pub response_types_supported : List Text
  pub subject_types_supported : List Text
  pub id_token_signing_alg_values_supported : List Text
  pub token_endpoint_auth_methods_supported : List Text
  pub authorization_signing_alg_values_supported : List Text
  pub request_object_signing_alg_values_supported : List Text
  pub code_challenge_methods_supported : List Text
  pub response_modes_supported : List Text
  pub token_endpoint_auth_signing_alg_values_supported : List Text
  pub id_token_encryption_alg_values_supported : List Text
  pub id_token_encryption_enc_values_supported : List Text
  pub introspection_endpoint_auth_methods_supported : List Text
  pub introspection_endpoint_auth_signing_alg_values_supported : List Text
  pub introspection_signing_alg_values_supported : List Text
  pub introspection_encryption_alg_values_supported : List Text
  pub introspection_encryption_enc_values_supported : List Text
  pub trust_frameworks_supported : List Text
  pub claims_in_verified_claims_supported : List Text
  pub evidence_supported : List Text
  pub documents_supported : List Text
  pub documents_check_methods_supported : List Text
  pub documents_methods_supported : List Text
  pub electronic_records_supported : List Text
  pub grant_management_actions_supported : List Text
  pub grant_management_action_required : Option Bool
  pub require_pushed_authorization_requests : Option Bool
  pub mtls_endpoint_aliases : MtlsAliases
  pub raw : Option Text

-- `metadata.Provider{}`
abbrev pub no_provider : Provider
no_provider = record {
  issuer = [];
  authorization_endpoint = [];
  token_endpoint = [];
  jwks_uri = [];
  registration_endpoint = [];
  introspection_endpoint = [];
  userinfo_endpoint = [];
  pushed_authorization_request_endpoint = [];
  grant_management_endpoint = [];
  response_types_supported = [];
  subject_types_supported = [];
  id_token_signing_alg_values_supported = [];
  token_endpoint_auth_methods_supported = [];
  authorization_signing_alg_values_supported = [];
  request_object_signing_alg_values_supported = [];
  code_challenge_methods_supported = [];
  response_modes_supported = [];
  token_endpoint_auth_signing_alg_values_supported = [];
  id_token_encryption_alg_values_supported = [];
  id_token_encryption_enc_values_supported = [];
  introspection_endpoint_auth_methods_supported = [];
  introspection_endpoint_auth_signing_alg_values_supported = [];
  introspection_signing_alg_values_supported = [];
  introspection_encryption_alg_values_supported = [];
  introspection_encryption_enc_values_supported = [];
  trust_frameworks_supported = [];
  claims_in_verified_claims_supported = [];
  evidence_supported = [];
  documents_supported = [];
  documents_check_methods_supported = [];
  documents_methods_supported = [];
  electronic_records_supported = [];
  grant_management_actions_supported = [];
  grant_management_action_required = none;
  require_pushed_authorization_requests = none;
  mtls_endpoint_aliases = no_aliases;
  raw = none;
}

-- The fields of AuthorizationServer as it is fetched on its own, where Raw stays nil.
pub record AuthorizationServer : Type 0 where
  pub issuer : Text
  pub authorization_endpoint : Text
  pub token_endpoint : Text
  pub jwks_uri : Text
  pub registration_endpoint : Text
  pub response_types_supported : List Text
  pub response_modes_supported : List Text
  pub token_endpoint_auth_methods_supported : List Text
  pub token_endpoint_auth_signing_alg_values_supported : List Text
  pub introspection_endpoint : Text
  pub introspection_endpoint_auth_methods_supported : List Text
  pub introspection_endpoint_auth_signing_alg_values_supported : List Text
  pub introspection_signing_alg_values_supported : List Text
  pub introspection_encryption_alg_values_supported : List Text
  pub introspection_encryption_enc_values_supported : List Text
  pub mtls_endpoint_aliases : MtlsAliases
  pub code_challenge_methods_supported : List Text

-- `metadata.AuthorizationServer{}`
abbrev pub no_server : AuthorizationServer
no_server = record {
  issuer = [];
  authorization_endpoint = [];
  token_endpoint = [];
  jwks_uri = [];
  registration_endpoint = [];
  response_types_supported = [];
  response_modes_supported = [];
  token_endpoint_auth_methods_supported = [];
  token_endpoint_auth_signing_alg_values_supported = [];
  introspection_endpoint = [];
  introspection_endpoint_auth_methods_supported = [];
  introspection_endpoint_auth_signing_alg_values_supported = [];
  introspection_signing_alg_values_supported = [];
  introspection_encryption_alg_values_supported = [];
  introspection_encryption_enc_values_supported = [];
  mtls_endpoint_aliases = no_aliases;
  code_challenge_methods_supported = [];
}

-- `metadata.Provider{AuthorizationServer: as}`
unfoldable pub provider_of_server : AuthorizationServer → Provider
provider_of_server s = record no_provider {
  issuer = s.issuer;
  authorization_endpoint = s.authorization_endpoint;
  token_endpoint = s.token_endpoint;
  jwks_uri = s.jwks_uri;
  registration_endpoint = s.registration_endpoint;
  response_types_supported = s.response_types_supported;
  response_modes_supported = s.response_modes_supported;
  token_endpoint_auth_methods_supported = s.token_endpoint_auth_methods_supported;
  token_endpoint_auth_signing_alg_values_supported =
      s.token_endpoint_auth_signing_alg_values_supported;
  introspection_endpoint = s.introspection_endpoint;
  introspection_endpoint_auth_methods_supported = s.introspection_endpoint_auth_methods_supported;
  introspection_endpoint_auth_signing_alg_values_supported =
      s.introspection_endpoint_auth_signing_alg_values_supported;
  introspection_signing_alg_values_supported = s.introspection_signing_alg_values_supported;
  introspection_encryption_alg_values_supported = s.introspection_encryption_alg_values_supported;
  introspection_encryption_enc_values_supported = s.introspection_encryption_enc_values_supported;
  mtls_endpoint_aliases = s.mtls_endpoint_aliases;
  code_challenge_methods_supported = s.code_challenge_methods_supported;
}
