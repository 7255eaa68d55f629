-- ===== src/Http/Response.antt =====
-- library/http/http_response.hpp and http_response.cpp. `iterate` is the order in which the
-- `unordered_map` of the headers is walked, which the C++ library chooses.
use ccnet_utilities.Common.{
  Bool, false, not, ◌&&◌, List, [], ◌∷◌, ◌++◌, if◌then◌else◌, length, Bytes, codes,
}
use ccnet_utilities.Cpp.Numbers.{to_string}
use ccnet_utilities.Http.Headers
use ccnet_utilities.Http.Headers.{Headers}
use ccnet_utilities.Http.Request.Multipart.{crlf}
use ccnet_utilities.Http.Status.{HttpStatus, to_int, reason_phrase}
use ccnet_utilities.Http.Status
use ccnet_utilities.Http.Version.{HttpVersion, v1_1, version_string}

pub record Response : Type 0 where
  pub version : HttpVersion
  pub status : HttpStatus
  pub headers : Headers
  pub body : Bytes
  pub use_chunked : Bool

abbrev pub initial : Response
initial = record {
  version = v1_1;
  status = Status.ok;
  headers = Headers.empty;
  body = [];
  use_chunked = false;
}

-- `for (auto& kv : headers.items)`.
unfoldable pub header_lines : List (Bytes × Bytes) → Bytes
header_lines [] = []
header_lines ((k, v) ∷ rest) = k ++ (codes ": " ++ (v ++ (crlf ++ header_lines rest)))

unfoldable pub status_line : Response → Bytes
status_line r =
    version_string r.version
    ++ (codes " "
        ++ (to_string (to_int r.status) ++ (codes " " ++ (reason_phrase r.status ++ crlf))))

-- The line that is added where the headers name no length.
unfoldable pub length_line : Response → Bytes
length_line r =
    if not r.use_chunked && not (Headers.has r.headers (codes "content-length"))
    then codes "Content-Length: " ++ (to_string (length r.body) ++ crlf)
    else []

unfoldable pub format_header : (List (Bytes × Bytes) → List (Bytes × Bytes)) → Response → Bytes
format_header iterate r =
    status_line r ++ (length_line r ++ (header_lines (iterate r.headers.items) ++ crlf))
