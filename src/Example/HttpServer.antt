-- ===== src/Example/HttpServer.antt =====
-- example/coro_example/coro_http_example.cpp: `handle_connection`. What it prints on the console is
-- not modelled.
pub mod Echoes
use ccnet_utilities.Common.{
  ℕ, zero, suc, Bool, true, false, ◌||◌, none, some, List, [], ◌++◌, ltb, if◌then◌else◌, length,
  Bytes, codes, equal,
}
use ccnet_utilities.CoroHttp.Reader.{read_request}
use ccnet_utilities.CoroHttp.Socket.{Socket}
use ccnet_utilities.CoroHttp.Task.{returned, starved, co_await}
use ccnet_utilities.CoroHttp.Writer.{write_response, Done}
use ccnet_utilities.Cpp.Numbers.{to_string}
use ccnet_utilities.Http.Headers
use ccnet_utilities.Http.Headers.{Headers}
use ccnet_utilities.Http.Method
use ccnet_utilities.Http.Method.{HttpMethod}
use ccnet_utilities.Http.Request.{Request}
use ccnet_utilities.Http.Response.{Response, initial}
use ccnet_utilities.Http.ServerConfig.{ServerConfig}
use ccnet_utilities.Http.Status
use ccnet_utilities.Http.Status.{HttpStatus}

-- The lambda `make_response`.
unfoldable pub make_response : Request → HttpStatus → Bytes → Bool → Response
make_response req status body chunked = record initial {
  status = status;
  body = body;
  use_chunked = chunked;
  headers =
      Headers.set
        (Headers.set (Headers.set Headers.empty (codes "server") (codes "coro-http/0.1"))
          (codes "content-type") (codes "text/plain; charset=utf-8"))
        (codes "connection") (if req.is_keep_alive then codes "keep-alive" else codes "close");
}

-- The loop over `i` for the page `/stream`, with the number of its rounds.
unfoldable pub add_lines : ℕ → ℕ → Bytes → Bytes
add_lines zero i big = big
add_lines (suc rounds) i big =
    add_lines rounds (suc i) (big ++ (codes "line " ++ (to_string i ++ codes "\n")))

abbrev pub not_found : Request → Response
not_found req =
    make_response req Status.not_found (codes "Path " ++ (req.path ++ codes " not found\n")) false

unfoldable pub get_response : Request → Response
get_response req =
    if equal req.path (codes "/") || equal req.path (codes "/index")
    then make_response req Status.ok (codes "Hello from coroutine HTTP server!\n") false
    else if equal req.path (codes "/stream")
    then make_response req Status.ok (add_lines 1000 0 []) true
    else not_found req

unfoldable pub post_response : ServerConfig → Request → Response
post_response cfg req =
    if equal req.path (codes "/echo")
    then make_response req Status.ok req.body (ltb cfg.read_block (length req.body))
    else not_found req

-- What is answered to a request.
unfoldable pub response_to : ServerConfig → Request → Response
response_to cfg req = elim req.method [
  | Method.get ↦ get_response req
  | Method.post ↦ post_response cfg req
  | _ ↦ not_found req
]

-- `uninitialised`, `after_move` and `iterate` are those of the reader and the writer.
module _ (sock : Socket) (close : sock.State → sock.State) (cfg : ServerConfig)
    (uninitialised : Bool) (after_move : Bytes → Bytes)
    (iterate : List (Bytes × Bytes) → List (Bytes × Bytes)) where
  -- The loop, with fuel for its rounds and for the loops of the reader and the writer. Each round has
  -- a reader of its own, whose `accum_` is empty. No exception reaches the `catch`, as `co_await`
  -- passes none on.
  unfoldable pub connection_loop : ℕ → ℕ → sock.State → Done sock cfg
  connection_loop fuel zero st = starved
  connection_loop fuel (suc rounds) st =
      co_await none (read_request sock cfg uninitialised after_move fuel [] st) (λ maybe_req at.
        elim maybe_req [
          | none ↦ returned tt at.1
          | some req ↦
              co_await tt (write_response sock cfg fuel iterate (response_to cfg req) at.1)
                (λ _ st'.
                  let next : Done sock cfg = connection_loop fuel rounds st' in
                  if req.is_keep_alive then next else returned tt st')
        ])

  -- Whatever ends the loop, the socket is closed.
  unfoldable pub handle_connection : ℕ → ℕ → sock.State → Done sock cfg
  handle_connection fuel rounds st =
      co_await tt (connection_loop fuel rounds st) (λ _ st'. returned tt (close st'))
