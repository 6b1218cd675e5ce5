-- ===== src/Rp/CallbackParams.antt =====
-- rp/callback_params.go: the parameters of an authorization response.
use lanyard.Base.{◌&&◌, none, some, [], Text, codes, ◌==◌, trim_space, has_prefix, if◌then◌else◌}
use lanyard.Base.Maps.{Dict, lookup}
use lanyard.Http.{Request}

pub record CallbackParams : Type 0 where
  pub code : Text
  pub state : Text
  pub iss : Text
  pub id_token : Text
  pub error : Text
  pub error_description : Text
  pub response : Text

-- `FormValue` and `Query().Get`, trimmed
unfoldable pub param : Dict Text → Text → Text
param values name = elim (lookup name values) [ none ↦ [] | some v ↦ trim_space v ]

unfoldable pub params_of : Dict Text → CallbackParams
params_of values = record {
  code = param values (codes "code");
  state = param values (codes "state");
  iss = param values (codes "iss");
  id_token = param values (codes "id_token");
  error = param values (codes "error");
  error_description = param values (codes "error_description");
  response = param values (codes "response");
}

-- handleCallback is not the first to call this: HandleCallback does for its span. A second ParseForm has no
-- error, also where the first had one, so that here the fallback to the query is never taken.
unfoldable pub extract_params : Request → CallbackParams
extract_params req =
    let form_post =
      req.method == codes "POST"
      && has_prefix (trim_space req.content_type) (codes "application/x-www-form-urlencoded") in
    if form_post then params_of req.form else params_of req.query
