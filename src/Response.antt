-- ===== src/Response.antt =====
-- src/dbsc/response.py: what the host must emit. A header mapping is the list of its members, in
-- the order in which they are written.
use dbsc_python.Base.{ℕ, Bool, true, false, Option, none, List, []}
use dbsc_python.Base.Int.{ℤ, pos}
use dbsc_python.Base.Text.{Text, codes}

pub record Cookie : Type 0 where
  pub name : Text
  pub value : Text
  pub expires_at : ℤ
  pub delete : Bool
  pub path : Text
  pub secure : Bool
  pub http_only : Bool
  pub same_site : Text

-- `Cookie(name, value, expires_at)` with the defaults of the class.
abbrev pub cookie : Text → Text → ℤ → Cookie
cookie name value expires_at = record {
  name = name;
  value = value;
  expires_at = expires_at;
  delete = false;
  path = codes "/";
  secure = true;
  http_only = true;
  same_site = codes "Lax";
}

unfoldable pub deletion : Text → Text → Cookie
deletion name path = record (cookie name [] (pos 0)) { delete = true; path = path }

pub record DbscResponse : Type 0 where
  pub headers : List (Text × Text)
  pub cookies : List Cookie
  pub status : Option ℕ
  pub body : Option Text
  pub content_type : Option Text

abbrev pub empty_response : DbscResponse
empty_response = record {
  headers = [];
  cookies = [];
  status = none;
  body = none;
  content_type = none;
}
