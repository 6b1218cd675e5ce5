-- ===== src/Rp/Merge.antt =====
-- rp/rp.go: merging the provider's metadata from two sources.
pub mod Safe
use lanyard.Base.{
  Bool, true, false, Option, none, some, List, Text, [], ◌==◌, trim_space, is_empty, if◌then◌else◌,
}
use lanyard.Metadata.{Provider, MtlsAliases}

-- `providerMergeMode`
pub data MergeMode : Type 0 where
  fill_missing override_present : MergeMode

abbrev pub merge_text : MergeMode → Text → Text → Text
merge_text fill_missing dst src = if dst == [] then src else dst
merge_text override_present dst src = if trim_space src == [] then dst else src

abbrev pub merge_list : MergeMode → List Text → List Text → List Text
merge_list fill_missing dst src = if is_empty dst then src else dst
merge_list override_present dst src = if is_empty src then dst else src

abbrev pub merge_raw : MergeMode → Option Text → Option Text → Option Text
merge_raw fill_missing none src = src
merge_raw fill_missing (some raw) src = some raw
merge_raw override_present dst none = dst
merge_raw override_present dst (some raw) = some raw

abbrev first_set : Option Bool → Option Bool → Option Bool
first_set none src = src
first_set (some b) src = some b

unfoldable pub merge_aliases : MergeMode → MtlsAliases → MtlsAliases → MtlsAliases
merge_aliases mode dst src = record {
  token_endpoint = merge_text mode dst.token_endpoint src.token_endpoint;
  userinfo_endpoint = merge_text mode dst.userinfo_endpoint src.userinfo_endpoint;
  registration_endpoint = merge_text mode dst.registration_endpoint src.registration_endpoint;
  pushed_authorization_request_endpoint =
      merge_text mode dst.pushed_authorization_request_endpoint
        src.pushed_authorization_request_endpoint;
  introspection_endpoint = merge_text mode dst.introspection_endpoint src.introspection_endpoint;
}

unfoldable pub merge_provider : MergeMode → Provider → Provider → Provider
unfolding merge_aliases
merge_provider mode dst src = record dst {
  issuer = merge_text mode dst.issuer src.issuer;
  authorization_endpoint = merge_text mode dst.authorization_endpoint src.authorization_endpoint;
  token_endpoint = merge_text mode dst.token_endpoint src.token_endpoint;
  jwks_uri = merge_text mode dst.jwks_uri src.jwks_uri;
  registration_endpoint = merge_text mode dst.registration_endpoint src.registration_endpoint;
  introspection_endpoint = merge_text mode dst.introspection_endpoint src.introspection_endpoint;
  userinfo_endpoint = merge_text mode dst.userinfo_endpoint src.userinfo_endpoint;
  pushed_authorization_request_endpoint =
      merge_text mode dst.pushed_authorization_request_endpoint
        src.pushed_authorization_request_endpoint;
  grant_management_endpoint =
      merge_text mode dst.grant_management_endpoint src.grant_management_endpoint;
  response_types_supported =
      merge_list mode dst.response_types_supported src.response_types_supported;
  subject_types_supported = merge_list mode dst.subject_types_supported src.subject_types_supported;
  id_token_signing_alg_values_supported =
      merge_list mode dst.id_token_signing_alg_values_supported
        src.id_token_signing_alg_values_supported;
  token_endpoint_auth_methods_supported =
      merge_list mode dst.token_endpoint_auth_methods_supported
        src.token_endpoint_auth_methods_supported;
  authorization_signing_alg_values_supported =
      merge_list mode dst.authorization_signing_alg_values_supported
        src.authorization_signing_alg_values_supported;
  request_object_signing_alg_values_supported =
      merge_list mode dst.request_object_signing_alg_values_supported
        src.request_object_signing_alg_values_supported;
  code_challenge_methods_supported =
      merge_list mode dst.code_challenge_methods_supported src.code_challenge_methods_supported;
  response_modes_supported =
      merge_list mode dst.response_modes_supported src.response_modes_supported;
  token_endpoint_auth_signing_alg_values_supported =
      merge_list mode dst.token_endpoint_auth_signing_alg_values_supported
        src.token_endpoint_auth_signing_alg_values_supported;
  id_token_encryption_alg_values_supported =
      merge_list mode dst.id_token_encryption_alg_values_supported
        src.id_token_encryption_alg_values_supported;
  id_token_encryption_enc_values_supported =
      merge_list mode dst.id_token_encryption_enc_values_supported
        src.id_token_encryption_enc_values_supported;
  introspection_endpoint_auth_methods_supported =
      merge_list mode dst.introspection_endpoint_auth_methods_supported
        src.introspection_endpoint_auth_methods_supported;
  introspection_endpoint_auth_signing_alg_values_supported =
      merge_list mode dst.introspection_endpoint_auth_signing_alg_values_supported
        src.introspection_endpoint_auth_signing_alg_values_supported;
  introspection_signing_alg_values_supported =
      merge_list mode dst.introspection_signing_alg_values_supported
        src.introspection_signing_alg_values_supported;
  introspection_encryption_alg_values_supported =
      merge_list mode dst.introspection_encryption_alg_values_supported
        src.introspection_encryption_alg_values_supported;
  introspection_encryption_enc_values_supported =
      merge_list mode dst.introspection_encryption_enc_values_supported
        src.introspection_encryption_enc_values_supported;
  trust_frameworks_supported =
      merge_list mode dst.trust_frameworks_supported src.trust_frameworks_supported;
  claims_in_verified_claims_supported =
      merge_list mode dst.claims_in_verified_claims_supported
        src.claims_in_verified_claims_supported;
  evidence_supported = merge_list mode dst.evidence_supported src.evidence_supported;
  documents_supported = merge_list mode dst.documents_supported src.documents_supported;
  documents_check_methods_supported =
      merge_list mode dst.documents_check_methods_supported src.documents_check_methods_supported;
  documents_methods_supported =
      merge_list mode dst.documents_methods_supported src.documents_methods_supported;
  electronic_records_supported =
      merge_list mode dst.electronic_records_supported src.electronic_records_supported;
  grant_management_actions_supported =
      merge_list mode dst.grant_management_actions_supported src.grant_management_actions_supported;
  grant_management_action_required =
      first_set dst.grant_management_action_required src.grant_management_action_required;
  mtls_endpoint_aliases = merge_aliases mode dst.mtls_endpoint_aliases src.mtls_endpoint_aliases;
  raw = merge_raw mode dst.raw src.raw;
}
