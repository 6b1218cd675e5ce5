-- ===== src/Rp/UrlOptions.antt =====
-- rp/options.go: the options of one authorization URL.
use lanyard.Base.{
  Bool, not, Option, none, some, List, [], ◌∷◌, Text, ◌==◌, trim_space, ok, err, if◌then◌else◌,
}
use lanyard.Metadata.Validate.{Url}
use lanyard.Rp.{Rp, RpError, invalid_configuration}
use lanyard.Rp.Options.{normalize_resources}
use lanyard.Rp.RequestObject.{Values, set, GrantManagementRequest, validate_grant}

-- `authorizationURLConfig`; resources that are nil are `none`.
pub record UrlConfig : Type 0 where
  pub authorization_details : Text
  pub parameters : Values
  pub resources : Option (List Text)
  pub grant_management : Option GrantManagementRequest
  pub claims : Text
  pub error : Option RpError

-- The details are what `marshalAuthorizationDetails` makes of them.
pub data UrlOption : Type 0 where
  set_authorization_details : Option Text → UrlOption
  set_resources : List Text → UrlOption
  set_claims set_grant_id : Text → UrlOption
  set_grant_management_action set_auth_param : Text → Text → UrlOption

-- What `authorizationURL` starts with.
unfoldable pub url_config : Rp → UrlConfig
url_config r = record {
  authorization_details = r.authorization_details;
  parameters = [];
  resources = none;
  grant_management = none;
  claims = [];
  error = none;
}

abbrev failed : UrlConfig → RpError → UrlConfig
failed cfg e = record cfg { error = some e }

-- `normalizeResources` gives nil for no resources.
abbrev nil_if_empty : List Text → Option (List Text)
nil_if_empty [] = none
nil_if_empty (r ∷ rs) = some (r ∷ rs)

-- `parse` is url.Parse, and `is_object` says whether a text is a JSON object.
module _ (parse : Text → Option Url) (is_object : Text → Bool) where
  unfoldable pub apply_url_option : UrlOption → UrlConfig → UrlConfig
  apply_url_option (set_authorization_details none) cfg = cfg
  apply_url_option (set_authorization_details (some details)) cfg = record cfg {
    authorization_details = details;
  }
  apply_url_option (set_resources resources) cfg =
      elim (normalize_resources parse is_object resources) [
        | err e ↦ failed cfg e
        | ok normalized ↦ record cfg { resources = nil_if_empty normalized }
      ]
  apply_url_option (set_claims raw) cfg =
      if trim_space raw == []
      then record cfg { claims = [] }
      else if not (is_object raw)
      then failed cfg invalid_configuration
      else record cfg { claims = raw }
  apply_url_option (set_grant_management_action action grant_id) cfg =
      let grant : GrantManagementRequest = record {
        action = action;
        grant_id = trim_space grant_id;
      } in
      elim (validate_grant grant) [
        | err e ↦ failed cfg e
        | ok u ↦ record cfg { grant_management = some grant }
      ]
  apply_url_option (set_grant_id grant_id) cfg =
      if trim_space grant_id == [] then failed cfg invalid_configuration else record cfg {
        grant_management = some (record { action = []; grant_id = trim_space grant_id });
      }
  apply_url_option (set_auth_param key value) cfg =
      if trim_space key == []
      then cfg
      else record cfg { parameters = set (trim_space key) value cfg.parameters }

  unfoldable pub apply_url_options : List UrlOption → UrlConfig → UrlConfig
  apply_url_options [] cfg = cfg
  apply_url_options (o ∷ os) cfg = apply_url_options os (apply_url_option o cfg)
