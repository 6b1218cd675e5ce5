-- ===== src/Rp/Endpoints.antt =====
-- rp/endpoints.go: which endpoint of the provider a flow uses.
use lanyard.Base.{Bool, true, false, not, ◌&&◌, ◌||◌, Text, [], ◌==◌, if◌then◌else◌}
use lanyard.Metadata.{Provider}
use lanyard.Rp.{Rp, SenderConstraint, mtls}
use lanyard.Rp.AuthMethod.{tls, self_signed_tls}

abbrev pub is_mtls : SenderConstraint → Bool
is_mtls mtls = true
is_mtls _ = false

-- `usesMTLSForTokenEndpoint`
unfoldable pub uses_mtls : Rp → Bool
uses_mtls r =
    r.resolved_auth_method == tls
    || r.resolved_auth_method == self_signed_tls
    || is_mtls r.sender_constrain

abbrev pub alias_or : Bool → Text → Text → Text
alias_or use_alias alias endpoint = if use_alias && not (alias == []) then alias else endpoint

-- `effectiveTokenEndpoint`
unfoldable pub token_endpoint : Rp → Provider → Text
token_endpoint r p = alias_or (uses_mtls r) p.mtls_endpoint_aliases.token_endpoint p.token_endpoint

unfoldable pub user_info_endpoint : Rp → Provider → Text
user_info_endpoint r p =
    alias_or (is_mtls r.sender_constrain) p.mtls_endpoint_aliases.userinfo_endpoint
      p.userinfo_endpoint

unfoldable pub introspection_endpoint : Rp → Provider → Text
introspection_endpoint r p =
    alias_or (uses_mtls r) p.mtls_endpoint_aliases.introspection_endpoint p.introspection_endpoint

-- `pushedAuthorizationRequestEndpointWithAuthMethod`
unfoldable pub par_endpoint : Provider → Text → Text
par_endpoint p method =
    alias_or (method == tls || method == self_signed_tls)
      p.mtls_endpoint_aliases.pushed_authorization_request_endpoint
      p.pushed_authorization_request_endpoint
