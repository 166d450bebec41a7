-- ===== src/Http.antt =====
-- What the code uses of net/http, net/url and base64: requests as the handlers read them, cookies
-- as they set them. Parsing a request is the server's; its parts are fields.
use wonderwall.Base.{
  ℕ, String, ◌==◌, Option, List, [], ◌∷◌, Bool, if◌then◌else◌, Result, ok, err, no_cookie,
}
use wonderwall.Base.Int.{ℤ}

abbrev pub Bytes : Type 0
Bytes = List ℕ

-- An association list with the entries of `url.Values`, of the cookies or of a header, in order.
abbrev pub Pairs : Type 0
Pairs = List (String × String)

-- `Get` of url.Values: the first value, or "".
unfoldable pub get : Pairs → String → String
get [] key = ""
get ((k, v) ∷ rest) key = if k == key then v else get rest key

-- `r.Cookie(name)`: the value of the first cookie of that name.
unfoldable pub find_cookie : Pairs → String → Result String
find_cookie [] name = err no_cookie
find_cookie ((k, v) ∷ rest) name = if k == name then ok v else find_cookie rest name

pub data SameSite : Type 0 where
  default_mode lax_mode strict_mode none_mode unset_mode : SameSite

-- `http.Cookie`; `expires` is an instant, and Go's zero time leaves it out.
pub record HttpCookie : Type 0 where
  pub name : String
  pub value : String
  pub path : String
  pub domain : String
  pub expires : ℤ
  pub max_age : ℤ
  pub secure : Bool
  pub http_only : Bool
  pub same_site : SameSite

-- `[]byte(s)`, `string(b)` and the standard base64 encoding.
pub record Encoding : Type 0 where
  pub to_bytes : String → Bytes
  pub to_string : Bytes → String
  pub base64 : Bytes → String
  pub from_base64 : String → Result Bytes

-- The documented laws: conversions of a text and encodings can be undone.
pub record IsEncoding (e : Encoding) : Type 0 where
  pub string-bytes : (s : String) → Path String (e.to_string (e.to_bytes s)) s
  pub decodes : (b : Bytes) → Path (Result Bytes) (e.from_base64 (e.base64 b)) (ok b)

-- `url.URL`; `others` are the fields that the code neither reads nor sets.
pub record Url : Type 0 where
  pub scheme : String
  pub host : String
  pub path : String
  pub raw_query : String
  pub others : List String

-- net/url and path: Parse, String, QueryUnescape, Values.Encode and Join.
pub record UrlLibrary : Type 0 where
  pub parse : String → Result Url
  pub print : Url → String
  pub query_unescape : String → Result String
  pub encode : Pairs → String
  pub join : List String → String

-- base64.RawURLEncoding
pub record RawUrlEncoding : Type 0 where
  pub encode : Bytes → String
  pub decode : String → Result Bytes

-- `http.Request` as the handlers read it. `context_path` and `context_ingress` are the values that
-- the middleware for ingresses puts into the context.
pub record Request : Type 0 where
  pub method : String
  pub host : String
  pub forwarded_host : String
  pub path : String
  pub query : Pairs
  pub cookies : Pairs
  pub context_path : Option String
  pub context_ingress : Option Url
