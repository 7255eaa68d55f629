-- ===== src/Http/Request/Print/RoundTrip.antt =====
-- A printed request is read as it was meant.
use ccnet_utilities.Common.{
  ℕ, suc, ◌+◌, ◌<◌, ◌≡◌, refl, ap, ◌∙◌, ◌≢◌, false, none, some, List, [], ◌∷◌, ◌++◌, arith, ltb,
  length, drop, Bytes, substr,
}
use ccnet_utilities.Common.{
  Lacks, find_byte-Lacks, find_byte-append, drop_behind, take-append, All-append,
}
use ccnet_utilities.Cpp.Words.{NoSpaces}
use ccnet_utilities.Http.Exceptions.{ok, ◌>>=◌}
use ccnet_utilities.Http.Headers
use ccnet_utilities.Http.Headers.{Headers}
use ccnet_utilities.Http.QueryMap.{QueryMap}
use ccnet_utilities.Http.Method.{
  HttpMethod, to_string, is_invalid_method, parse_http_method, parse_http_method-to_string,
}
use ccnet_utilities.Http.Version.{HttpVersion, version_string, from_string, is_invalid_http_version}
use ccnet_utilities.Http.Request.Line.{consume_line}
use ccnet_utilities.Http.Request.Query.{filled_params_query}
use ccnet_utilities.Http.Request.{Request, initial, max_line}
use ccnet_utilities.Http.Request.Parse.{
  HeaderState, set_target, set_version, parse_start_line, parse_headers, parse_request, keep_alive,
}
use ccnet_utilities.Http.Request.Parse.StartLine.{
  set_method_good, set_version_good, set_target_plain, set_target_query, parse_start_line_words,
}
use ccnet_utilities.Http.Request.Parse.Valid.{parse_headers_few, headers_of, parse_request_line}
use ccnet_utilities.Http.Request.Print.{
  Field, lines_of, AreFields, value_of, start_line, Asks, plain, query,
}
use ccnet_utilities.Http.Request.Print.Loop.{
  consume_line_of, NoSpaces-Lacks, newline_space, append-ne-nil, header_loop-Read, rest_of,
}
use ccnet_utilities.Http.Request.Print.Words.{
  IsWord, start_words-start_line, to_string-IsWord, version_string-IsWord,
  from_string-version_string,
}

-- The request of a start line, before its headers are read.
abbrev pub asked : HttpMethod → Bytes → QueryMap → Request
asked m path params = record initial { method = m; path = path; from_url_params = params }

set_target-Asks :
    (m : HttpMethod) {target path : Bytes} {params : QueryMap}
    → Asks target path params
    → set_target target (asked m [] []) ≡ ok (asked m path params)
set_target-Asks m (plain path h) =
    set_target_plain path (asked m [] []) (find_byte-Lacks path b'?' h)
set_target-Asks m (query path q params h e) =
    let behind : drop (length path + 1) (path ++ b'?' ∷ q) ≡ q =
      ap (λ n. drop n (path ++ b'?' ∷ q)) {x = length path + 1} {y = suc (length path)}
        (omega arith)
      ∙ drop_behind path b'?' q in
    let front : substr (path ++ b'?' ∷ q) 0 (length path) ≡ path = take-append path (b'?' ∷ q) in
    set_target_query (path ++ b'?' ∷ q) (asked m [] []) (length path)
      (find_byte-append path q b'?' h)
    ∙ ap
        (λ s.
          filled_params_query s
          >>= (λ ps. ok (asked m (substr (path ++ b'?' ∷ q) 0 (length path)) ps)))
        behind
    ∙ ap (λ r. r >>= (λ ps. ok (asked m (substr (path ++ b'?' ∷ q) 0 (length path)) ps))) e
    ∙ ap (λ p. ok (asked m p params)) front

parse_start_line-start_line :
    (m : HttpMethod) (v : HttpVersion) (target path : Bytes) (params : QueryMap)
    → is_invalid_method m ≡ false
    → is_invalid_http_version v ≡ false
    → IsWord target
    → Asks target path params
    → parse_start_line (start_line (to_string m) target (version_string v))
      ≡ ok (record (asked m path params) { version = v })
parse_start_line-start_line m v target path params known valid word asks =
    let name : parse_http_method (to_string m) ≡ m = parse_http_method-to_string m in
    let text : from_string (version_string v) ≡ v = from_string-version_string v valid in
    let method_ok : is_invalid_method (parse_http_method (to_string m)) ≡ false =
      ap is_invalid_method name ∙ known in
    let version_ok : is_invalid_http_version (from_string (version_string v)) ≡ false =
      ap is_invalid_http_version text ∙ valid in
    parse_start_line_words (start_line (to_string m) target (version_string v)) (to_string m) target
      (version_string v)
      (start_words-start_line (to_string m) target (version_string v) (to_string-IsWord m) word
        (version_string-IsWord v))
    ∙ ap (λ r. r >>= (λ r₁. set_target target r₁ >>= (λ r₂. set_version (version_string v) r₂)))
        (set_method_good (to_string m) initial method_ok ∙ ap (λ n. ok (asked n [] [])) name)
    ∙ ap (λ r. r >>= (λ r₂. set_version (version_string v) r₂)) (set_target-Asks m asks)
    ∙ set_version_good (version_string v) (asked m path params) version_ok
    ∙ ap (λ n. ok (record (asked m path params) { version = n })) text

-- What is read from a printed request.
pub record IsRead (req : Request) (m : HttpMethod) (v : HttpVersion) (asked_path : Bytes)
    (asked_params : QueryMap) (fs : List Field) : Type 0 where
  pub method : req.method ≡ m
  pub version : req.version ≡ v
  pub path : req.path ≡ asked_path
  pub params : req.from_url_params ≡ asked_params
  pub values : (j : Bytes) → Headers.get req.headers j ≡ value_of j none fs
  pub no_body : req.body ≡ []
  pub keeps_alive : req.is_keep_alive ≡ keep_alive v req.headers

-- The header block, without the empty line behind it.
abbrev pub print : HttpMethod → Bytes → HttpVersion → List Field → Bytes
print m target v fs = start_line (to_string m) target (version_string v) ++ lines_of fs

pub start_line-Lacks :
    (m : HttpMethod) (v : HttpVersion) (target : Bytes)
    → IsWord target
    → Lacks b'\n' (start_line (to_string m) target (version_string v))
start_line-Lacks m v target word =
    let words = λ (w : Bytes) (h : NoSpaces w). NoSpaces-Lacks w b'\n' newline_space h in
    All-append (λ c. c ≢ b'\n') (to_string m) (b' ' ∷ (target ++ b' ' ∷ version_string v))
      (words (to_string m) (to_string-IsWord m).1)
      (
        omega arith,
        All-append (λ c. c ≢ b'\n') target (b' ' ∷ version_string v) (words target word.1)
            (omega arith, words (version_string v) (version_string-IsWord v).1),
      )

parse_headers-lines :
    (after_move : Bytes → Bytes) (block p : Bytes) (fs : List Field) (req : Request)
    → req.headers ≡ Headers.empty
    → AreFields fs
    → length fs < max_line
    → block ≡ p ++ rest_of fs
    → (headers : Headers) × (parse_headers after_move block (length p) req
        ≡ ok (record req { headers = headers; is_keep_alive = keep_alive req.version headers }))
      × ((j : Bytes) → Headers.get headers j ≡ value_of j none fs)
parse_headers-lines after_move block p fs req none_yet fields few e =
    let st : HeaderState = record {
      pos = length p;
      header_count = 0;
      last_key = [];
      headers = req.headers;
    } in
    let (count, values) =
      header_loop-Read after_move (max_line + 1) block p fs st fields e refl (omega arith)
        (omega arith) in
    let inside : ltb max_line (headers_of after_move block (length p) req).header_count ≡ false =
      ground (arith, count) in
    (
      (headers_of after_move block (length p) req).headers,
      parse_headers_few after_move block (length p) req inside,
      λ j. values j ∙ ap (λ h. value_of j (Headers.get h j) fs) none_yet ∙ empty_lem j,
    )
  where
    empty_lem : (j : Bytes) → value_of j (Headers.get Headers.empty j) fs ≡ value_of j none fs
    empty_lem j = unfold Headers.get Headers.find_item in refl

parse_request-some :
    (after_move : Bytes → Bytes) (block line : Bytes) (next : ℕ)
    → line ≢ []
    → consume_line block 0 (length block) ≡ (some line, next)
    → parse_request after_move block
      ≡ (parse_start_line line >>= (λ req. parse_headers after_move block next req))
parse_request-some after_move block [] next ne e = absurd (ne refl)
parse_request-some after_move block (c ∷ s) next ne e =
    parse_request_line after_move block c s (ap (λ x. x.0) e)
    ∙ ap (λ n. parse_start_line (c ∷ s) >>= (λ req. parse_headers after_move block n req))
        (ap (λ x. x.1) e)

-- The header block of a request with a known method and version, a target without spaces, and fields
-- with keys in lower case, values of one line, and fewer than `max_line` of them, is read as what
-- was printed: method, version, path and query parameters are those of the request, every header has
-- under any spelling of its key the values of its fields, joined by commas, also `Set-Cookie`, which a
-- comment of the code excepts; the body is empty, and `isKeepAlive` is as the headers and the version
-- say.
pub parse_request-print :
    (after_move : Bytes → Bytes) (m : HttpMethod) (v : HttpVersion) (target path : Bytes)
    (params : QueryMap) (fs : List Field)
    → is_invalid_method m ≡ false
    → is_invalid_http_version v ≡ false
    → IsWord target
    → Asks target path params
    → AreFields fs
    → length fs < max_line
    → (req : Request) × (parse_request after_move (print m target v fs) ≡ ok req)
      × IsRead req m v path params fs
parse_request-print after_move m v target path params fs known valid word asks fields few =
    let line : Bytes = start_line (to_string m) target (version_string v) in
    let block : Bytes = print m target v fs in
    let ne : line ≢ [] = append-ne-nil (to_string m) _ (to_string-IsWord m).0 in
    let (p', split, consumed) = consume_line_of [] line fs ne (start_line-Lacks m v target word) in
    let (headers, parsed, values) =
      parse_headers-lines after_move block p' fs (record (asked m path params) { version = v }) refl
        fields few split in
    (
      record (asked m path params) {
        version = v;
        headers = headers;
        is_keep_alive = keep_alive v headers;
      },
      parse_request-some after_move block line (length p') ne consumed
          ∙ ap (λ r. r >>= (λ req. parse_headers after_move block (length p') req))
              (parse_start_line-start_line m v target path params known valid word asks)
          ∙ parsed,
      record {
        method = refl;
        version = refl;
        path = refl;
        params = refl;
        values = values;
        no_body = refl;
        keeps_alive = refl;
      },
    )
