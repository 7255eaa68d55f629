-- ===== src/CoroHttp/RequestTrip.antt =====
-- From a printed request on the wire to the request that the reader gives.
use ccnet_utilities.Http.Request.Print.Words.{IsWord}
use ccnet_utilities.Common.{
  ℕ, ◌+◌, ◌^◌, ◌≤◌, ◌<◌, ◌≡◌, refl, ap, ◌∙◌, Bool, false, none, some, List, ◌++◌, arith, length,
  length-append, Bytes, codes,
}
use ccnet_utilities.Common.{take-append}
use ccnet_utilities.CoroHttp.Reader.{max_size, max_temp_read_buffer, read_request}
use ccnet_utilities.CoroHttp.Reader.Chunked.{Chunked}
use ccnet_utilities.CoroHttp.Reader.Whole.{read_request_sized, read_request_chunked}
use ccnet_utilities.CoroHttp.Socket.{Socket, Reads, Delivers}
use ccnet_utilities.CoroHttp.Task.{returned}
use ccnet_utilities.Cpp.Numbers.{to_string}
use ccnet_utilities.Cpp.Numbers.RoundTrip.{stoull-to_string}
use ccnet_utilities.Http.Headers
use ccnet_utilities.Http.Method.{HttpMethod, is_invalid_method}
use ccnet_utilities.Http.QueryMap.{QueryMap}
use ccnet_utilities.Http.Request.Multipart.{all_seg_terminate}
use ccnet_utilities.Http.Request.Parse.{keep_alive}
use ccnet_utilities.Http.Request.Print.{Field, AreFields, Asks, value_of}
use ccnet_utilities.Http.Request.Print.Block.{find-print}
use ccnet_utilities.Http.Request.Print.RoundTrip.{print, IsRead, parse_request-print}
use ccnet_utilities.Http.Request.{Request, max_line}
use ccnet_utilities.Http.ServerConfig.{ServerConfig}
use ccnet_utilities.Http.Version.{HttpVersion, is_invalid_http_version}
use ccnet_utilities.Utils.Copy.{to_lower_copy}

-- A request as a client means it: a known method and version, a target without spaces, and fields
-- that can be printed.
pub record Meant : Type 0 where
  pub method : HttpMethod
  pub version : HttpVersion
  pub target : Bytes
  pub path : Bytes
  pub params : QueryMap
  pub fields : List Field
  pub known : is_invalid_method method ≡ false
  pub valid : is_invalid_http_version version ≡ false
  pub word : IsWord target
  pub asks : Asks target path params
  pub printable : AreFields fields
  pub few : length fields < max_line

abbrev pub header_block : Meant → Bytes
header_block c = print c.method c.target c.version c.fields

-- Method, version, path, parameters and headers are those that were meant, and the body is `body`.
pub record Got (c : Meant) (sent : Bytes) (req : Request) : Type 0 where
  pub method : req.method ≡ c.method
  pub version : req.version ≡ c.version
  pub path : req.path ≡ c.path
  pub params : req.from_url_params ≡ c.params
  pub values : (j : Bytes) → Headers.get req.headers j ≡ value_of j none c.fields
  pub body : req.body ≡ sent
  pub keeps_alive : req.is_keep_alive ≡ keep_alive c.version req.headers

Got-body :
    (c : Meant) (sent : Bytes) (req : Request)
    → IsRead req c.method c.version c.path c.params c.fields
    → Got c sent (record req { body = sent })
Got-body c sent req h = record {
  method = h.method;
  version = h.version;
  path = h.path;
  params = h.params;
  values = h.values;
  body = refl;
  keeps_alive = h.keeps_alive;
}

-- The limits of the configuration that the header is within.
abbrev pub Within : ServerConfig → Meant → Type 0
Within cfg c =
    (length (header_block c) + 3 ≤ cfg.max_header_bytes) × (length c.path ≤ cfg.max_start_line)

module _ {sock : Socket} (cfg : ServerConfig) (r : Reads sock) (d : Delivers r)
    (some_block : 0 < cfg.read_block) (small : cfg.read_block ≤ max_temp_read_buffer)
    (uninitialised : Bool) (after_move : Bytes → Bytes) (c : Meant) (within : Within cfg c) where
  -- `read_request` returns such a request.
  abbrev pub Gets : ℕ → Bytes → sock.State → Bytes → Type 0
  Gets fuel accum st body =
      (req : Request) × (accum' : Bytes) × (st' : sock.State) × (read_request sock cfg uninitialised
          after_move fuel accum st
        ≡ returned (some req) (accum', st'))
      × Got c body req

  -- A client prints a request with a `content-length` that is the size of its body, and sends an
  -- empty line and the body behind it, and any further bytes. Over a connection that does not fail,
  -- within the limits of the configuration, with blocks of 1 to 4096 bytes, a body below 2 ^ 64 bytes
  -- and fuel above the size of the request, the reader gives back the request that was meant, with
  -- that body, however the stream cuts it.
  pub read_request-print :
      (fuel : ℕ) (accum body more : Bytes) (st : sock.State)
      → accum ++ r.pending st ≡ header_block c ++ (all_seg_terminate ++ (body ++ more))
      → value_of (codes "content-length") none c.fields ≡ some (to_string (length body))
      → length (header_block c) + 4 + length body < fuel
      → length body ≤ cfg.max_body_bytes
      → length body < 2 ^ 64
      → Gets fuel accum st body
  read_request-print fuel accum body more st e sized enough fits number =
      let (req, parsed, meant) =
        parse_request-print after_move c.method c.version c.target c.path c.params c.fields c.known
          c.valid c.word c.asks c.printable c.few in
      let short : length req.path ≤ cfg.max_start_line = omega (arith, ap length meant.path) in
      let (accum', st', done) =
        read_request_sized cfg r d some_block small uninitialised after_move fuel (length body)
          accum (header_block c) (body ++ more) (to_string (length body)) st req
          (e, find-print c.method c.target c.version c.fields (body ++ more) c.word c.printable)
          within.0 enough parsed short (meant.values (codes "content-length") ∙ sized)
          (stoull-to_string (length body) number) fits (omega (arith, length-append body more)) in
      (
        record req { body = body },
        accum',
        st',
        done
            ∙ ap (λ s. returned (some (record req { body = s })) (accum', st'))
                (take-append body more),
        Got-body c body req meant,
      )

  -- A client prints a request with the transfer encoding `chunked`, in any case of its letters, and
  -- no `content-length`, and sends an empty line and a chunked body behind it, and any further bytes.
  -- Over a connection that does not fail, within the limits of the configuration, with blocks of 1 to
  -- 4096 bytes, a bound on bodies that strings can reach, and fuel above the size of all that is sent
  -- and of the body, the reader gives back the request that was meant, with the body that the chunks
  -- carry.
  pub read_request-Chunked :
      (fuel : ℕ) (accum s body more encoding : Bytes) (st : sock.State)
      → accum ++ r.pending st ≡ header_block c ++ (all_seg_terminate ++ (s ++ more))
      → Chunked s body
      → value_of (codes "content-length") none c.fields ≡ none
      → value_of (codes "transfer-encoding") none c.fields ≡ some encoding
      → to_lower_copy encoding ≡ codes "chunked"
      → length (header_block c) + 4 + length (s ++ more) < fuel
      → length body ≤ cfg.max_body_bytes
      → length body < fuel
      → cfg.max_body_bytes + 2 ≤ max_size
      → Gets fuel accum st body
  read_request-Chunked fuel accum s body more encoding st e w unsized te lower enough fits room
        sizes =
      let (req, parsed, meant) =
        parse_request-print after_move c.method c.version c.target c.path c.params c.fields c.known
          c.valid c.word c.asks c.printable c.few in
      let short : length req.path ≤ cfg.max_start_line = omega (arith, ap length meant.path) in
      let (accum', st', lost, done, left) =
        read_request_chunked cfg r d some_block small uninitialised after_move fuel accum
          (header_block c) s body more encoding st req
          (e, find-print c.method c.target c.version c.fields (s ++ more) c.word c.printable)
          within.0 enough parsed short (meant.values (codes "content-length") ∙ unsized)
          (meant.values (codes "transfer-encoding") ∙ te) lower w fits room sizes in
      (record req { body = body }, accum', st', done, Got-body c body req meant)
