-- ===== src/Http.antt =====
-- What the code reads of net/http requests and writes to responses, and package time.
use lanyard.Base.{ℕ, Bool, Text, List}
use lanyard.Base.Maps.{Dict}

-- A time.Time, in nanoseconds since Go's zero time: `IsZero` is the test for 0. Earlier times and
-- the end of the range of time.Time are outside the model.
abbrev pub Time : Type 0
Time = ℕ

-- A time.Duration that is not negative, in nanoseconds.
abbrev pub Duration : Type 0
Duration = ℕ

abbrev pub second : Duration
second = 1000000000

abbrev pub minute : Duration
minute = 60000000000

-- A *http.Request; the code that takes one tests for nil, so it stands under an Option there.
-- `form` is the form that ParseForm leaves, also where it fails: what it could read of the body before
-- the query.
pub record Request : Type 0 where
  pub method : Text
  pub content_type : Text
  pub cookies : Dict Text
  pub form : Dict Text
  pub query : Dict Text

-- A http.Cookie as the stores set it; the mark `same_site_none` is SameSiteNoneMode.
pub record SetCookie : Type 0 where
  pub name : Text
  pub value : Text
  pub path : Text
  pub expires : Time
  pub max_age : ℕ
  pub http_only : Bool
  pub secure : Bool
  pub same_site_none : Bool

-- A http.ResponseWriter, as the cookies set on it so far.
abbrev pub ResponseWriter : Type 0
ResponseWriter = List SetCookie
