-- ===== src/Rp/Flow.antt =====
-- rp/callback.go and rp/token_source.go: the data of a flow that comes back to the client.
use lanyard.Base.{
  Bool, Option, none, List, [], Text, codes, ◌==◌, equal_fold, trim_space, any, Except, ok, err,
  if◌then◌else◌,
}
use lanyard.Http.{Time}
use lanyard.Metadata.{Provider}
use lanyard.Store.{CallbackCorrelation}
use lanyard.Rp.{
  Rp, RpError, authorization_failed, invalid_grant_id, id_token_validation_failed, IdTokenProblem,
}
use lanyard.Rp.IdToken.{FlowIdentity}
use lanyard.Rp.IdToken.Verify.{KeySets}

-- The fields of Token that the callback reads or returns.
pub record Token : Type 0 where
  pub access_token : Text
  pub token_type : Text
  pub id_token : Text
  pub refresh_token : Text
  pub grant_id : Text

pub record CallbackResult : Type 0 where
  pub subject : Text
  pub access_token : Text
  pub user_info : Option Text
  pub cnf : Text
  pub grant_id : Text
  pub token : Token
  pub issuer : Text
  pub verified_claims : Text

-- `authorizationError`
unfoldable pub authorization_error : Text → Text → RpError
authorization_error code description =
    if code == codes "invalid_grant_id"
    then invalid_grant_id description
    else authorization_failed code description

-- One callback's surroundings: the clock at each reading, the key sets, and the exchanges over the
-- network, of which the callback sees the outcome: discovery, the token endpoint and UserInfo.
pub record Network : Type 0 where
  pub jarm_time : Time
  pub store_time : Time
  pub response_time : Time
  pub age_time : Time
  pub token_time : Time
  pub key_sets : KeySets
  pub discover : Text → Option Provider
  pub exchange : Rp → Text → Text → Text → List Text → FlowIdentity → Except RpError Token
  pub fetch_user_info : Rp → Text → Text → Text → Text → FlowIdentity → Except RpError Text
  -- parseIDTokenVerifiedClaims, on the raw member
  pub parse_verified : Text → Text

-- What an authorization response carries.
pub record Response : Type 0 where
  pub code : Text
  pub state : Text
  pub iss : Text

-- `usesOpenIDScope`
unfoldable pub uses_openid : Rp → Bool
uses_openid r = any (λ s. equal_fold (trim_space s) (codes "openid")) r.scopes

-- The identity of the flow: what the correlation holds, or else the configuration.
abbrev pub or_else : Text → Text → Text
or_else a b = if a == [] then b else a

unfoldable pub identity : Rp → CallbackCorrelation → Text → FlowIdentity
identity r saved issuer = record {
  issuer = issuer;
  client_id = or_else saved.client_id r.client_id;
  client_secret = or_else saved.client_secret r.client_secret;
}

unfoldable pub expected_issuer : Rp → CallbackCorrelation → Text
expected_issuer r saved = or_else saved.issuer r.issuer

abbrev pub lift_problem : {A : Type 0} → Except IdTokenProblem A → Except RpError A
lift_problem (ok a) = ok a
lift_problem (err p) = err (id_token_validation_failed p)

-- The result of a flow without the scope `openid`.
unfoldable pub unidentified : FlowIdentity → Token → CallbackResult
unidentified id token = record {
  subject = [];
  access_token = token.access_token;
  user_info = none;
  cnf = [];
  grant_id = token.grant_id;
  token = token;
  issuer = id.issuer;
  verified_claims = [];
}
