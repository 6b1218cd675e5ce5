-- ===== src/Rp/RequestObject.antt =====
-- rp/request_object.go, rp/grant_management_request.go and url.Values: what a request asks for.
use lanyard.Base.{
  ℕ, ◌+◌, ◌*◌, Bool, true, false, not, ◌||◌, Option, none, some, List, [], ◌∷◌, ◌++◌, Text, codes,
  ◌==◌, any, is_empty, trim_space, to_lower, Except, ok, err, fail_if, if◌then◌else◌,
}
use lanyard.Base.Maps.{Dict, lookup, insert}
use lanyard.Base.Base64.{encode}
use lanyard.Http.{Time, minute}
use lanyard.Base.Int.{ℤ}
use lanyard.Store.Cookie.Payload.{unix_seconds}
use lanyard.Rp.{Rp, RpError, invalid_configuration}
use lanyard.Rp.Flow.{uses_openid}

-- url.Values
abbrev pub Values : Type 0
Values = Dict (List Text)

abbrev pub values_of : Text → Values → List Text
values_of k vs = elim (lookup k vs) [ none ↦ [] | some v ↦ v ]

-- `Get`, `Set` and `Add`
abbrev first_or_empty : List Text → Text
first_or_empty [] = []
first_or_empty (v ∷ vs) = v

abbrev pub get : Text → Values → Text
get k vs = first_or_empty (values_of k vs)

abbrev pub set : Text → Text → Values → Values
set k v vs = insert k (v ∷ []) vs

abbrev pub add : Text → Text → Values → Values
add k v vs = insert k (values_of k vs ++ v ∷ []) vs

unfoldable pub add_each : Text → List Text → Values → Values
add_each k [] vs = vs
add_each k (v ∷ rest) vs = add_each k rest (add k v vs)

unfoldable pub add_all : Values → Values → Values
unfolding add_each
add_all [] vs = vs
add_all ((k, new) ∷ extra) vs = add_all extra (add_each k new vs)

abbrev pub set_if : Bool → Text → Text → Values → Values
set_if true k v vs = set k v vs
set_if false k v vs = vs

-- `grantManagementRequest`
pub record GrantManagementRequest : Type 0 where
  pub action : Text
  pub grant_id : Text

-- `validate`
unfoldable pub validate_grant : GrantManagementRequest → Except RpError (Unit {0})
validate_grant g =
    let missing = trim_space g.grant_id == [] in
    if g.action == []
    then ok tt
    else if g.action == codes "create"
    then fail_if (not missing) invalid_configuration
    else if g.action == codes "merge" || g.action == codes "update" || g.action == codes "replace"
    then fail_if missing invalid_configuration
    else err invalid_configuration

-- `grantActionsEquivalent`
abbrev merge_for_update : Text → Text
merge_for_update a = if a == codes "update" then codes "merge" else a

abbrev pub equivalent : Text → Text → Bool
equivalent a b = merge_for_update a == merge_for_update b

-- `validateSupported`
unfoldable pub validate_supported :
    Option GrantManagementRequest → List Text → Except RpError (Unit {0})
validate_supported none supported = ok tt
validate_supported (some g) supported =
    if g.action == [] || is_empty supported
    then ok tt
    else fail_if (not (any (equivalent g.action) supported)) invalid_configuration

-- `applyTo`
unfoldable pub apply_grant : Option GrantManagementRequest → Values → Values
apply_grant none vs = vs
apply_grant (some g) vs =
    set_if (not (trim_space g.grant_id == [])) (codes "grant_id") g.grant_id
      (set_if (not (g.action == [])) (codes "grant_management_action") g.action vs)

-- `grantIDValue` and `actionValue`
abbrev grant_id_value : Option GrantManagementRequest → Text
grant_id_value none = []
grant_id_value (some g) = trim_space g.grant_id

abbrev action_value : Option GrantManagementRequest → Text
action_value none = []
action_value (some g) = g.action

-- strings.Join(scopes, " ")
unfoldable pub join : List Text → Text
join [] = []
join (s ∷ []) = s
join (s ∷ t ∷ rest) = s ++ codes " " ++ join (t ∷ rest)

-- `authorizationResponseType`
unfoldable pub authorization_response_type : Rp → Text
authorization_response_type r =
    let kind = trim_space r.response_type in if kind == [] then codes "code" else kind

-- `requestObjectClaims`; a raw JSON member is a text.
pub record RequestObjectClaims : Type 0 where
  pub iss : Text
  pub aud : Text
  pub client_id : Text
  pub response_type : Text
  pub redirect_uri : Text
  pub scope : Text
  pub state : Text
  pub nonce : Text
  pub code_challenge : Text
  pub code_challenge_method : Text
  pub authorization_details : Text
  pub resource : List Text
  pub claims : Text
  pub grant_id : Text
  pub grant_management_action : Text
  pub response_mode : Text
  pub issued_at : ℤ
  pub not_before : ℤ
  pub expiration : ℤ
  pub jti : Text
  pub extra : Dict Text

-- `isStandardRequestObjectClaim`
unfoldable pub standard_claims : List Text
standard_claims =
    codes "iss"
    ∷ codes "aud"
    ∷ codes "client_id"
    ∷ codes "response_type"
    ∷ codes "redirect_uri"
    ∷ codes "scope"
    ∷ codes "state"
    ∷ codes "nonce"
    ∷ codes "code_challenge"
    ∷ codes "code_challenge_method"
    ∷ codes "authorization_details"
    ∷ codes "response_mode"
    ∷ codes "resource"
    ∷ codes "grant_id"
    ∷ codes "grant_management_action"
    ∷ codes "claims"
    ∷ codes "iat"
    ∷ codes "nbf"
    ∷ codes "exp"
    ∷ codes "jti"
    ∷ []

unfoldable pub is_standard : Text → Bool
is_standard key = any (λ c. c == to_lower key) standard_claims

unfoldable pub extra_claims : Values → Dict Text
extra_claims [] = []
extra_claims ((key, vs) ∷ rest) =
    let others = extra_claims rest in
    if is_standard key then others else (key, first_or_empty vs) ∷ others

-- `generateJTI`
abbrev pub jti_of : Option (List ℕ) → Text
jti_of none = []
jti_of (some buf) = encode buf

-- What one authorization request asks for.
pub record Asked : Type 0 where
  pub state : Text
  pub nonce : Text
  pub challenge : Text
  pub authorization_details : Text
  pub resources : List Text
  pub grant : Option GrantManagementRequest
  pub claims : Text
  pub parameters : Values

-- The claims of `buildSignedRequestObjectInner`; `details` are the parsed authorization details.
unfoldable pub request_object_claims :
    Rp → Time → Option (List ℕ) → Text → Asked → RequestObjectClaims
unfolding authorization_response_type
request_object_claims r now random details a = record {
  iss = r.client_id;
  aud = r.issuer;
  client_id = r.client_id;
  response_type = authorization_response_type r;
  redirect_uri = r.redirect_uri;
  scope = join r.scopes;
  state = a.state;
  nonce = if uses_openid r then a.nonce else [];
  code_challenge = a.challenge;
  code_challenge_method = codes "S256";
  authorization_details = details;
  resource = a.resources;
  claims = a.claims;
  grant_id = grant_id_value a.grant;
  grant_management_action = action_value a.grant;
  response_mode = if trim_space r.response_mode == [] then [] else r.response_mode;
  issued_at = unix_seconds now;
  not_before = unix_seconds now;
  expiration = unix_seconds (now + 5 * minute);
  jti = jti_of random;
  extra = extra_claims a.parameters;
}
