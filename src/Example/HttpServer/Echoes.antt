-- ===== src/Example/HttpServer/Echoes.antt =====
-- What a client gets that posts a body to `/echo` of the example server.
use ccnet_utilities.Common.{ℕ, ◌≤◌, ◌<◌, ◌≡◌, ◌⊎◌, Bool, true, false, List, ◌++◌, Bytes}
use ccnet_utilities.CoroHttp.Reader.{max_temp_read_buffer}
use ccnet_utilities.CoroHttp.Reader.Chunked.{Chunked}
use ccnet_utilities.CoroHttp.Task.Leaves.{Leaves}
use ccnet_utilities.CoroHttp.Socket.{Socket, Reads, Delivers, Writes, Accepts, Duplex}
use ccnet_utilities.CoroHttp.Task.{returned}
use ccnet_utilities.CoroHttp.Writer.{chunked_response}
use ccnet_utilities.CoroHttp.Writer.Sized.{message}
use ccnet_utilities.Example.HttpServer.{handle_connection}
use ccnet_utilities.Http.Headers
use ccnet_utilities.Http.Method
use ccnet_utilities.Http.Request.{Request}
use ccnet_utilities.Http.Response.{Response, format_header}
use ccnet_utilities.Http.ServerConfig.{ServerConfig}
use ccnet_utilities.Http.Status

-- A response has gone out: with its length, or in chunks that carry its body.
abbrev pub Answered :
    {sock : Socket}
    → Writes sock
    → (List (Bytes × Bytes) → List (Bytes × Bytes))
    → Response
    → sock.State
    → sock.State
    → Type 0
Answered w iterate resp st st' =
    ((resp.use_chunked ≡ false) × (w.sent st' ≡ w.sent st ++ message iterate resp))
    ⊎ ((s : Bytes) × (resp.use_chunked ≡ true)
        × (w.sent st' ≡ w.sent st ++ (format_header iterate (chunked_response resp) ++ s))
        × Chunked s resp.body)

module _ {sock : Socket} (cfg : ServerConfig) {r : Reads sock} {w : Writes sock} (d : Delivers r)
    (a : Accepts sock) (duplex : Duplex r w) (some_block : 0 < cfg.read_block)
    (small : cfg.read_block ≤ max_temp_read_buffer) (close : sock.State → sock.State)
    (uninitialised : Bool) (after_move : Bytes → Bytes)
    (iterate : List (Bytes × Bytes) → List (Bytes × Bytes)) where
  -- The coroutine has closed the connection, behind the response to `req`.
  abbrev pub Closes : ℕ → ℕ → sock.State → Response → Type 0
  Closes fuel rounds st resp =
      (st' : sock.State) × (handle_connection sock close cfg uninitialised after_move iterate fuel
          rounds st
        ≡ returned tt (close st'))
      × Answered w iterate resp st st'
