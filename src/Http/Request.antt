-- ===== src/Http/Request.antt =====
-- library/http/http_request.h: the request and its accessors. Its constructor and
-- `consume_form_body` are in the children.
pub mod Line
pub mod UrlDecode
pub mod Query
pub mod Multipart
pub mod Parse
pub mod Form
pub mod Print
use ccnet_utilities.Common.{
  ℕ, zero, suc, ◌+◌, ◌-◌, ◌*◌, ◌/◌, ◌%◌, ◌^◌, ◌≤◌, ◌<◌, min, ◌≡◌, refl, sym, ap, ◌∙◌, subst, ◌≢◌,
  ◌↔◌, ◌⊎◌, inl, inr, Bool, true, false, not, ◌&&◌, ◌||◌, Option, none, some, List, [], ◌∷◌, ◌++◌,
  append_assoc, append-nil, arith, dec_lt, dec_le, ltb, leb, ◌==◌, if◌then◌else◌, within,
  Bool-cases, Option-cases, ==_iff, length, take, drop, length-append, length-take, length-drop,
  take-append-drop, All, Bytes, codes, text, equal, equal_iff, find, find_byte, substr,
}
use ccnet_utilities.Http.Headers
use ccnet_utilities.Http.Headers.{Headers}
use ccnet_utilities.Http.Method.{HttpMethod, unknown}
use ccnet_utilities.Http.QueryMap.{QueryMap, find_key}
use ccnet_utilities.Http.Version.{HttpVersion, v1_0}

abbrev pub max_line : ℕ
max_line = 10000

pub record Request : Type 0 where
  pub method : HttpMethod
  pub path : Bytes
  pub version : HttpVersion
  pub headers : Headers
  pub body : Bytes
  pub is_keep_alive : Bool
  pub from_url_params : QueryMap
  pub from_form : QueryMap

-- The default member values; `version {}` is the first enumerator.
abbrev pub initial : Request
initial = record {
  method = unknown;
  path = [];
  version = v1_0;
  headers = Headers.empty;
  body = [];
  is_keep_alive = true;
  from_url_params = [];
  from_form = [];
}

-- `it->second.front()`, behind the test that the list is not empty.
abbrev pub first_of_values : Option (List Bytes) → Option Bytes
first_of_values none = none
first_of_values (some []) = none
first_of_values (some (v ∷ vs)) = some v

abbrev pub all_of_values : Option (List Bytes) → List Bytes
all_of_values none = []
all_of_values (some []) = []
all_of_values (some (v ∷ vs)) = v ∷ vs

unfoldable pub query_first : Request → Bytes → Option Bytes
unfolding find_key
query_first r key = first_of_values (find_key r.from_url_params key)

unfoldable pub query_all : Request → Bytes → List Bytes
unfolding find_key
query_all r key = all_of_values (find_key r.from_url_params key)

unfoldable pub form_first : Request → Bytes → Option Bytes
unfolding find_key
form_first r key = first_of_values (find_key r.from_form key)

unfoldable pub form_all : Request → Bytes → List Bytes
unfolding find_key
form_all r key = elim (find_key r.from_form key) [ none ↦ [] | some vs ↦ vs ]

unfoldable pub request_check_for_form_body : Request → Bool
unfolding Headers.get
request_check_for_form_body r = elim (Headers.get r.headers (codes "content-type")) [
  | none ↦ false
  | some v ↦ true
]
