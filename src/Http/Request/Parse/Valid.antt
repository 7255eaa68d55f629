-- ===== src/Http/Request/Parse/Valid.antt =====
-- What holds of every request that the constructor accepts.
use ccnet_utilities.Common.{◌∷◌, ltb}
use ccnet_utilities.Http.Exceptions.{HttpException, http_request_parse_error}
use ccnet_utilities.Common.{◌+◌, none, some, subst, text, []}
use ccnet_utilities.Common.{Bytes, ℕ, ◌≡◌, false, length, some, subst, none}
use ccnet_utilities.Http.Headers
use ccnet_utilities.Http.Headers.{Headers}
use ccnet_utilities.Http.Headers.Laws.{IsWellFormed}
use ccnet_utilities.Http.Request.Parse.{
  HeaderState, ok, header_loop, Request, ◌>>=◌, max_line, is_invalid_http_version,
  is_invalid_method, consume_line, parse_start_line, parse_headers, keep_alive, parse_request,
}

abbrev pub headers_of : (Bytes → Bytes) → Bytes → ℕ → Request → HeaderState
headers_of after_move block pos req =
    header_loop after_move (max_line + 1) block
      (record { pos = pos; header_count = 0; last_key = []; headers = req.headers })

many_error : HttpException
many_error = record {
  kind = http_request_parse_error;
  message = text "Client has sent us too many lines!";
}

pub parse_headers_few :
    (after_move : Bytes → Bytes) (block : Bytes) (pos : ℕ) (req : Request)
    → ltb max_line (headers_of after_move block pos req).header_count ≡ false
    → parse_headers after_move block pos req
      ≡ ok (record req {
        headers = (headers_of after_move block pos req).headers;
        is_keep_alive = keep_alive req.version (headers_of after_move block pos req).headers;
      })
unfolding parse_headers
parse_headers_few after_move block pos req e = rw e

-- What a request has that the constructor accepts.
pub record IsValid (req : Request) : Type 0 where
  pub unique_headers : IsWellFormed req.headers
  pub method_known : is_invalid_method req.method ≡ false
  pub version_known : is_invalid_http_version req.version ≡ false
  pub keeps_alive : req.is_keep_alive ≡ keep_alive req.version req.headers

line_error : HttpException
line_error = record {
  kind = http_request_parse_error;
  message = text "Failed to find the start line! or its empty! Request Provided is not valid!";
}

module _ (after_move : Bytes → Bytes) (block : Bytes) where
  pub parse_request_line :
      (c : ℕ) (s : Bytes)
      → (consume_line block 0 (length block)).0 ≡ some (c ∷ s)
      → parse_request after_move block ≡ (
          parse_start_line (c ∷ s)
          >>= (λ req. parse_headers after_move block (consume_line block 0 (length block)).1 req))
  unfolding parse_request
  parse_request_line c s e = rw (e, parse_request)
