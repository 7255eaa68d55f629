-- ===== src/CoroHttp/Writer.antt =====
-- library/coro_http/coro_http_writer.h and coro_http_writer.cpp: `HttpWriter`. `iterate` is that of
-- `Http.Response`.
pub mod Sized
pub mod Chunks
pub mod Head
use ccnet_utilities.Common.{
  ℕ, zero, suc, ◌+◌, ◌-◌, ◌*◌, ◌/◌, ◌%◌, ◌^◌, ◌≤◌, ◌<◌, min, ◌≡◌, refl, sym, ap, ◌∙◌, subst, ◌≢◌,
  ◌↔◌, ◌⊎◌, inl, inr, Bool, true, false, not, ◌&&◌, ◌||◌, Option, none, some, List, [], ◌∷◌, ◌++◌,
  append_assoc, append-nil, arith, dec_lt, dec_le, ltb, leb, ◌==◌, if◌then◌else◌, within,
  Bool-cases, Option-cases, ==_iff, length, take, drop, length-append, length-take, length-drop,
  take-append-drop, All, Bytes, codes, text, equal, equal_iff, find, find_byte, substr,
}
use ccnet_utilities.CoroHttp.Socket.{Socket, WriteResult}
use ccnet_utilities.CoroHttp.Task.{Outcome, returned, thrown, fault, starved}
use ccnet_utilities.Cpp.Numbers.{to_string, format_hex}
use ccnet_utilities.Http.Headers
use ccnet_utilities.Http.Headers.{Headers}
use ccnet_utilities.Http.Request.Multipart.{crlf}
use ccnet_utilities.Http.Response.{Response, format_header}
use ccnet_utilities.Http.ServerConfig.{ServerConfig}

abbrev pub set_default : Headers → Bytes → Bytes → Headers
set_default h key val = if Headers.has h key then h else Headers.set h key val

-- The copy `r` of `write_nonchunked`.
unfoldable pub sized_response : Response → Response
sized_response resp = record resp {
  headers =
      set_default (set_default resp.headers (codes "content-length") (to_string (length resp.body)))
        (codes "connection") (codes "close");
}

-- The copy `r` of `write_chunked`.
unfoldable pub chunked_response : Response → Response
chunked_response resp = record resp {
  headers =
      Headers.set
        (Headers.set (Headers.erase resp.headers (codes "content-length"))
          (codes "transfer-encoding") (codes "chunked"))
        (codes "connection") (codes "keep-alive");
}

module _ (sock : Socket) (cfg : ServerConfig) where
  abbrev pub Done : Type 0
  Done = Outcome sock.State (Unit {0})

  -- The loop of `write_nonchunked`, which gives up where a write brings nothing on.
  unfoldable pub write_all : ℕ → Bytes → ℕ → sock.State → Done
  write_all zero out sent st = starved
  write_all (suc fuel) out sent st =
      let (res, st') = sock.async_write st (drop sent out) in
      let round : Done = elim res [
        | none ↦ returned tt st'
        | some zero ↦ returned tt st'
        | some (suc n) ↦ write_all fuel out (sent + suc n) st'
      ] in
      if ltb sent (length out) then round else returned tt st

  unfoldable pub write_nonchunked :
      (List (Bytes × Bytes) → List (Bytes × Bytes)) → Response → sock.State → Done
  write_nonchunked iterate resp st =
      let r : Response = sized_response resp in
      let out : Bytes = format_header iterate r ++ r.body in write_all (length out + 1) out 0 st

  -- A write whose result is not looked at.
  abbrev pub write_piece : sock.State → Bytes → sock.State
  write_piece st bs = (sock.async_write st bs).1

  -- The loop over the body from `pos`, and the last chunk.
  unfoldable pub write_chunks : ℕ → Bytes → ℕ → sock.State → Done
  write_chunks zero body pos st = starved
  write_chunks (suc fuel) body pos st =
      let chunk : ℕ = min cfg.read_block (length body - pos) in
      let header : Bytes = format_hex chunk ++ crlf in
      let more : Done =
        write_chunks fuel body (pos + chunk)
          (write_piece (write_piece (write_piece st header) (substr body pos chunk)) crlf) in
      if ltb pos (length body) then more else returned tt (write_piece st (codes "0\r\n\r\n"))

  unfoldable pub write_chunked :
      ℕ → (List (Bytes × Bytes) → List (Bytes × Bytes)) → Response → sock.State → Done
  write_chunked fuel iterate resp st =
      let r : Response = chunked_response resp in
      let (sent, st') = sock.async_write st (format_header iterate r) in
      elim sent [
        | none ↦ returned tt st'
        | some zero ↦ returned tt st'
        | some (suc n) ↦ write_chunks fuel r.body 0 st'
      ]

  unfoldable pub write_response :
      ℕ → (List (Bytes × Bytes) → List (Bytes × Bytes)) → Response → sock.State → Done
  write_response fuel iterate resp st =
      if resp.use_chunked
      then write_chunked fuel iterate resp st
      else write_nonchunked iterate resp st
