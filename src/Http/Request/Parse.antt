-- ===== src/Http/Request/Parse.antt =====
-- The constructor `Request(const std::string& header_block)` of library/http/http_request.cpp.
-- `after_move key` is what the C++ library leaves in the string `key` that was moved from; the
-- standard says only that it is a valid string.
pub mod HeaderLoop
pub mod StartLine
pub mod Valid
pub mod Folded
use ccnet_utilities.Common.{
  ℕ, zero, suc, ◌+◌, Bool, true, false, not, ◌&&◌, ◌||◌, Option, none, some, [], ◌∷◌, ◌++◌, ltb,
  leb, ◌==◌, if◌then◌else◌, length, drop, Bytes, codes, text, equal, find_byte, substr,
}
use ccnet_utilities.Cpp.Words.{next_word}
use ccnet_utilities.Http.Exceptions.{Result, ok, ◌>>=◌, throw, http_request_parse_error}
use ccnet_utilities.Http.Headers
use ccnet_utilities.Http.Headers.{Headers}
use ccnet_utilities.Http.Method.{HttpMethod, parse_http_method, is_invalid_method}
use ccnet_utilities.Http.Request.Line.{consume_line}
use ccnet_utilities.Http.Request.Query.{filled_params_query}
use ccnet_utilities.Http.Request.{Request, initial, max_line}
use ccnet_utilities.Http.Version.{
  HttpVersion, v1_0, v1_1, v_unknown, from_string, is_invalid_http_version,
}
use ccnet_utilities.Utils.Copy.{trim_copy, to_lower_copy}

-- The locals of the header loop and the member `headers` that it fills.
pub record HeaderState : Type 0 where
  pub pos : ℕ
  pub header_count : ℕ
  pub last_key : Bytes
  pub headers : Headers

abbrev pub is_empty : Bytes → Bool
is_empty [] = true
is_empty (c ∷ s) = false

abbrev pub starts_blank : Bytes → Bool
starts_blank [] = false
starts_blank (c ∷ s) = c == b' ' || c == b'\t'

-- A continuation line: its text goes behind the value of the last key.
unfoldable pub continue_header : Bytes → HeaderState → HeaderState
continue_header line st =
    let cont : Bytes = trim_copy line in
    elim (Headers.get st.headers st.last_key) [
      | some existing ↦ record st {
        headers = Headers.set st.headers st.last_key (existing ++ codes " " ++ cont);
      }
      | none ↦ record st { headers = Headers.set st.headers st.last_key cont }
    ]

-- A line with a key and a value. The key is moved into the map when it is new.
unfoldable pub add_header : (Bytes → Bytes) → Bytes → Bytes → HeaderState → HeaderState
add_header after_move key val st = elim (Headers.get st.headers key) [
  | some existing ↦ record st {
    headers = Headers.set st.headers key (existing ++ codes ", " ++ val);
    last_key = key;
  }
  | none ↦ record st { headers = Headers.set st.headers key val; last_key = after_move key }
]

-- The rest of the loop's body, on a line that is not empty. A line with no colon is passed over.
unfoldable pub header_line : (Bytes → Bytes) → Bytes → HeaderState → HeaderState
header_line after_move line st =
    if starts_blank line && not (is_empty st.last_key)
    then continue_header line st
    else (elim (find_byte line b':') [
      | none ↦ st
      | some colon ↦
          add_header after_move (to_lower_copy (trim_copy (substr line 0 colon)))
            (trim_copy (drop (colon + 1) line)) st
    ])

-- The loop. It makes at most `max_line + 1` rounds, which is its fuel.
unfoldable pub header_loop : (Bytes → Bytes) → ℕ → Bytes → HeaderState → HeaderState
header_loop after_move zero header_block st = st
header_loop after_move (suc fuel) header_block st =
    let line : Option Bytes × ℕ = consume_line header_block st.pos (length header_block) in
    let counted : HeaderState = record st { header_count = st.header_count + 1; pos = line.1 } in
    let round : HeaderState = elim line.0 [
      | none ↦ counted
      | some [] ↦ counted
      | some (c ∷ s) ↦
          header_loop after_move fuel header_block (header_line after_move (c ∷ s) counted)
    ] in
    if leb st.header_count max_line then round else st

-- The three words of the start line.
unfoldable pub start_words : Bytes → Option (Bytes × Bytes × Bytes)
start_words line = elim (next_word line) [
  | none ↦ none
  | some (method_string, r) ↦ elim (next_word r) [
    | none ↦ none
    | some (request_string, r') ↦ elim (next_word r') [
      | none ↦ none
      | some (version_string, r'') ↦ some (method_string, request_string, version_string)
    ]
  ]
]

-- `path` and `from_url_params`, from the requested string.
unfoldable pub set_target : Bytes → Request → Result Request
set_target request_string req = elim (find_byte request_string b'?') [
  | none ↦ ok (record req { path = request_string })
  | some qpos ↦ do
    params ← filled_params_query (drop (qpos + 1) request_string)
    ok (record req { path = substr request_string 0 qpos; from_url_params = params })
]

unfoldable pub set_version : Bytes → Request → Result Request
set_version version_string req =
    let v : HttpVersion = from_string version_string in
    if is_invalid_http_version v
    then throw http_request_parse_error
        (text "Can not parse version, version is unknown: " ++ version_string)
    else ok (record req { version = v })

unfoldable pub set_method : Bytes → Request → Result Request
set_method method_string req =
    let m : HttpMethod = parse_http_method method_string in
    if is_invalid_method m
    then throw http_request_parse_error
        (text "Can not parse method, method is unsupported: " ++ method_string)
    else ok (record req { method = m })

unfoldable pub parse_start_line : Bytes → Result Request
parse_start_line line = elim (start_words line) [
  | none ↦
      throw http_request_parse_error
        (text "Can not parse method/request/versions for the first line")
  | some (method_string, request_string, version_string) ↦ do
    r ← set_method method_string initial
    r' ← set_target request_string r
    set_version version_string r'
]

abbrev pub default_keep_alive : HttpVersion → Bool
default_keep_alive v1_0 = false
default_keep_alive v1_1 = true
default_keep_alive v_unknown = true

unfoldable pub keep_alive : HttpVersion → Headers → Bool
keep_alive version headers = elim (Headers.get headers (codes "connection")) [
  | none ↦ default_keep_alive version
  | some c ↦ equal (to_lower_copy c) (codes "keep-alive")
]

-- What follows the start line, from `pos`.
unfoldable pub parse_headers : (Bytes → Bytes) → Bytes → ℕ → Request → Result Request
parse_headers after_move header_block pos req =
    let start : HeaderState = record {
      pos = pos;
      header_count = 0;
      last_key = [];
      headers = req.headers;
    } in
    let done : HeaderState = header_loop after_move (max_line + 1) header_block start in
    if ltb max_line done.header_count
    then throw http_request_parse_error (text "Client has sent us too many lines!")
    else ok
        (record req { headers = done.headers; is_keep_alive = keep_alive req.version done.headers })

unfoldable pub parse_request : (Bytes → Bytes) → Bytes → Result Request
parse_request after_move header_block =
    let start_line : Option Bytes × ℕ = consume_line header_block 0 (length header_block) in
    let no_line : Result Request =
      throw http_request_parse_error
        (text "Failed to find the start line! or its empty! Request Provided is not valid!") in
    elim start_line.0 [
      | none ↦ no_line
      | some [] ↦ no_line
      | some (c ∷ s) ↦ do
        req ← parse_start_line (c ∷ s)
        parse_headers after_move header_block start_line.1 req
    ]
