-- ===== src/Session/Cookies.antt =====
-- The cookies of src/session.rs.
use boom_gw.Base.{ℕ, Bool, true, [], Bytes, codes}
use boom_gw.Session.{SessionConfig}

-- The attributes that the code sets; `same_site` is `Lax` in every cookie.
pub record Cookie : Type 0 where
  pub name : Bytes
  pub value : Bytes
  pub http_only : Bool
  pub path : Bytes
  pub max_age : ℕ
  pub secure : Bool

abbrev pub session_cookie : Bytes
session_cookie = codes "boom_gw_session"

unfoldable pub build_session_cookie : Bytes → SessionConfig → Cookie
build_session_cookie token config = record {
  name = session_cookie;
  value = token;
  http_only = true;
  path = codes "/";
  max_age = config.max_age;
  secure = config.secure;
}

unfoldable pub clear_session_cookie : SessionConfig → Cookie
clear_session_cookie config = record {
  name = session_cookie;
  value = [];
  http_only = true;
  path = codes "/";
  max_age = 0;
  secure = config.secure;
}
