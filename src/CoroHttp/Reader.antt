-- ===== src/CoroHttp/Reader.antt =====
-- library/coro_http/coro_http_reader.h and coro_http_reader.cpp: `HttpReader`. Fuel bounds the
-- number of rounds of each loop that reads.
pub mod Some
pub mod Header
pub mod Exact
pub mod Body
pub mod Fill
pub mod Chunked
pub mod Arrives
pub mod Whole
pub mod Untouched
use ccnet_utilities.Common.{
  ℕ, zero, suc, ◌+◌, ◌-◌, ◌%◌, ◌^◌, min, Bool, true, false, Option, none, some, [], ◌∷◌, ◌++◌, ltb,
  ◌==◌, if◌then◌else◌, length, take, drop, Bytes, codes, text, equal, find, find_byte, substr,
}
use ccnet_utilities.CoroHttp.Socket.{Socket, got, failed}
use ccnet_utilities.CoroHttp.Task.{Outcome, returned, thrown, fault, starved, co_await, followed_by}
use ccnet_utilities.Cpp.Numbers.{stoull, stoull_hex}
use ccnet_utilities.Http.Exceptions.{
  Kind, HttpException, Result, ok, err, http_header_too_large, http_reader_body_error,
  http_chunk_error, http_request_path_error, length_error,
}
use ccnet_utilities.Http.Headers
use ccnet_utilities.Http.Request.Multipart.{crlf, all_seg_terminate}
use ccnet_utilities.Http.Request.Parse.{parse_request}
use ccnet_utilities.Http.Request.{Request}
use ccnet_utilities.Http.ServerConfig.{ServerConfig}
use ccnet_utilities.Utils.BytesCount.{of_kb}
use ccnet_utilities.Utils.Copy.{to_lower_copy}

abbrev pub max_temp_read_buffer : ℕ
max_temp_read_buffer = of_kb 4

-- `std::string::max_size()`, on 64 bits.
abbrev pub max_size : ℕ
max_size = 2 ^ 63 - 1

abbrev pub error : Kind → Bytes → HttpException
error k m = record { kind = k; message = m }

abbrev pub not_empty : Bytes → Bool
not_empty [] = false
not_empty (c ∷ s) = true

-- The size line up to a `;`.
unfoldable pub cut_extension : Bytes → Bytes
cut_extension szline = elim (find_byte szline b';') [ none ↦ szline | some semi ↦ take semi szline ]

module _ (sock : Socket) (cfg : ServerConfig) where
  -- `co_await sock_->async_read(buf, n)` into an array of 4096 bytes. Where more bytes arrive, they
  -- are written behind it. The cases are `n <= 0` and the bytes read.
  unfoldable pub read_some {ℓ} :
      {R : Type ℓ} → sock.State → ℕ → R → (sock.State → R) → (Bytes → sock.State → R) → R
  read_some st n overrun ended more = elim (sock.async_read st n).0 [
    | failed ↦ ended (sock.async_read st n).1
    | got [] ↦ ended (sock.async_read st n).1
    | got (b ∷ bs) ↦
        if ltb max_temp_read_buffer (length (b ∷ bs))
        then overrun
        else more (b ∷ bs) (sock.async_read st n).1
  ]

  -- The state is the socket and `accum_`.
  unfoldable pub read_until_double_crlf : ℕ → Bytes → sock.State → Outcome (Bytes × sock.State) Bool
  read_until_double_crlf zero accum st = starved
  read_until_double_crlf (suc fuel) accum st =
      let read : Outcome (Bytes × sock.State) Bool =
        read_some st cfg.read_block fault (λ st'. returned (not_empty accum) (accum, st'))
          (λ bs st'. read_until_double_crlf fuel (accum ++ bs) st') in
      elim (find accum all_seg_terminate) [
        | some i ↦ returned true (accum, st)
        | none ↦
            if ltb cfg.max_header_bytes (length accum)
            then thrown (error http_header_too_large (text "headers too large")) (accum, st)
            else read
      ]

  -- The state is `dest` and the socket.
  unfoldable pub read_exact : ℕ → Bytes → ℕ → sock.State → Outcome (Bytes × sock.State) (Unit {0})
  read_exact zero dest need st = starved
  read_exact (suc fuel) dest need st =
      let read : Outcome (Bytes × sock.State) (Unit {0}) =
        read_some st (min cfg.read_block (need - length dest)) fault
          (λ st'.
            thrown (error http_reader_body_error (text "unexpected EOF while reading body"))
              (dest, st'))
          (λ bs st'.
            if ltb cfg.max_body_bytes (length (dest ++ bs))
            then thrown (error http_reader_body_error (text "body too large")) (dest ++ bs, st')
            else read_exact fuel (dest ++ bs) need st') in
      if ltb (length dest) need then read else returned tt (dest, st)

  -- The lambda of `decode_chunked_body`, a coroutine of its own; the state is `buffer` and the socket.
  unfoldable pub read_more : Bytes → sock.State → Outcome (Bytes × sock.State) (Unit {0})
  read_more buffer st =
      read_some st cfg.read_block fault
        (λ st'.
          thrown (error http_reader_body_error (text "unexpected EOF in chunked body"))
            (buffer, st'))
        (λ bs st'. returned tt (buffer ++ bs, st'))

  -- `while (pos == npos)`: until `buffer` holds a line; it returns where the line ends.
  unfoldable pub fill_line : ℕ → Bytes → sock.State → Outcome (Bytes × sock.State) ℕ
  fill_line zero buffer st = starved
  fill_line (suc fuel) buffer st = elim (find buffer crlf) [
    | some pos ↦ returned pos (buffer, st)
    | none ↦ co_await tt (read_more buffer st) (λ _ after. fill_line fuel after.0 after.1)
  ]

  -- `while (buffer.size() < need)`.
  unfoldable pub fill_size : ℕ → ℕ → Bytes → sock.State → Outcome (Bytes × sock.State) (Unit {0})
  fill_size zero need buffer st = starved
  fill_size (suc fuel) need buffer st =
      let more : Outcome (Bytes × sock.State) (Unit {0}) =
        co_await tt (read_more buffer st) (λ _ after. fill_size fuel need after.0 after.1) in
      if ltb (length buffer) need then more else returned tt (buffer, st)

  -- `out.append(buffer.data(), chunk_size)` and the test behind it; the result is the new `out`.
  unfoldable pub append_chunk : Bytes → Bytes → ℕ → Result Bytes
  append_chunk out buffer chunk_size =
      if ltb (max_size - length out) chunk_size
      then err (error length_error (text "basic_string::append"))
      else if ltb cfg.max_body_bytes (length (out ++ take chunk_size buffer))
      then err (error http_chunk_error (text "chunked body too large"))
      else ok (out ++ take chunk_size buffer)

  -- The chunk of size 0: the CRLF behind it is awaited, or whatever stands in its place.
  unfoldable pub last_chunk : ℕ → Bytes → Bytes → sock.State → Outcome sock.State Bytes
  last_chunk reads out buffer st =
      followed_by (λ s. s.1) (fill_size reads 2 buffer st) (λ _ at_end. returned out at_end.1)

  -- The end of a round: an exception, or the buffer without the chunk and its CRLF.
  abbrev pub after_append :
      (Bytes → Bytes → sock.State → Outcome sock.State Bytes)
      → ℕ
      → Bytes
      → sock.State
      → Result Bytes
      → Outcome sock.State Bytes
  after_append next chunk_size buffer st (err e) = thrown e st
  after_append next chunk_size buffer st (ok out) =
      next out (drop ((chunk_size + 2) % 2 ^ 64) buffer) st

  -- A chunk of another size; `next` is the rest of the loop. `chunk_size + 2` is a sum of `size_t`.
  unfoldable pub one_chunk :
      (Bytes → Bytes → sock.State → Outcome sock.State Bytes)
      → ℕ
      → Bytes
      → ℕ
      → Bytes
      → sock.State
      → Outcome sock.State Bytes
  one_chunk next reads out chunk_size buffer st =
      followed_by (λ s. s.1) (fill_size reads ((chunk_size + 2) % 2 ^ 64) buffer st)
        (λ _ filled.
          after_append next chunk_size filled.0 filled.1 (append_chunk out filled.0 chunk_size))

  -- What is done with the size line, which ends at `pos`.
  unfoldable pub after_size_line :
      (Bytes → Bytes → sock.State → Outcome sock.State Bytes)
      → ℕ
      → Bytes
      → ℕ
      → Bytes
      → sock.State
      → Outcome sock.State Bytes
  after_size_line next reads out pos buffer st =
      elim (stoull_hex (cut_extension (substr buffer 0 pos))) [
        | none ↦ thrown (error http_chunk_error (text "invalid chunk size")) st
        | some chunk_size ↦
            if chunk_size == 0
            then last_chunk reads out (drop (pos + 2) buffer) st
            else one_chunk next reads out chunk_size (drop (pos + 2) buffer) st
      ]

  -- The loop over the chunks, with fuel for the rounds and for the reads in each.
  unfoldable pub decode_loop : ℕ → ℕ → Bytes → Bytes → sock.State → Outcome sock.State Bytes
  decode_loop reads zero out buffer st = starved
  decode_loop reads (suc rounds) out buffer st =
      followed_by (λ s. s.1) (fill_line reads buffer st)
        (λ pos line.
          after_size_line (λ out' buffer' st'. decode_loop reads rounds out' buffer' st') reads out
            pos line.0 line.1)

  unfoldable pub decode_chunked_body : ℕ → Bytes → sock.State → Outcome sock.State Bytes
  decode_chunked_body fuel prefix st = decode_loop fuel fuel [] prefix st

  -- The state of `read_request` is `accum_`, which it does not clear, and the socket.
  abbrev pub Reply : Type 0
  Reply = Outcome (Bytes × sock.State) (Option Request)

  abbrev pub body_error : Bytes → Bytes → sock.State → Reply
  body_error m accum st = thrown (error http_reader_body_error m) (accum, st)

  -- The body is cut to `content_len`.
  abbrev pub with_body : Request → Bytes → ℕ → Request
  with_body req body content_len = record req {
    body = if ltb content_len (length body) then take content_len body else body;
  }

  -- A body with a content length, where `after` has come with the header.
  unfoldable pub read_sized_body : ℕ → Bytes → Request → Bytes → Bytes → sock.State → Reply
  read_sized_body fuel content_length req after accum st = elim (stoull content_length) [
    | none ↦ body_error (text "invalid content-length") accum st
    | some content_len ↦
        if ltb cfg.max_body_bytes content_len
        then body_error (text "content-length exceeds max_body_bytes") accum st
        else if ltb (length after) content_len
        then co_await tt (read_exact fuel after content_len st)
            (λ _ read. returned (some (with_body req read.0 content_len)) (accum, read.1))
        else returned (some (with_body req after content_len)) (accum, st)
  ]

  unfoldable pub read_body : ℕ → Request → Bytes → Bytes → sock.State → Reply
  read_body fuel req after accum st =
      let plain : Reply = returned (some (record req { body = after })) (accum, st) in
      let chunked : Reply =
        co_await [] (decode_chunked_body fuel after st)
          (λ out st'. returned (some (record req { body = out })) (accum, st')) in
      elim (Headers.get req.headers (codes "content-length")) [
        | some content_length ↦ read_sized_body fuel content_length req after accum st
        | none ↦ elim (Headers.get req.headers (codes "transfer-encoding")) [
          | none ↦ plain
          | some encoding ↦
              if equal (to_lower_copy encoding) (codes "chunked") then chunked else plain
        ]
      ]

  -- `uninitialised` is the `bool` in the promise of a `Task<bool>` whose body throws, and
  -- `after_move` is that of the request's constructor.
  unfoldable pub read_request : Bool → (Bytes → Bytes) → ℕ → Bytes → sock.State → Reply
  read_request uninitialised after_move fuel accum st =
      co_await uninitialised (read_until_double_crlf fuel accum st) (λ done at.
        if done
        then (elim (find at.0 all_seg_terminate) [
          | none ↦ returned none at
          | some header_end ↦ elim (parse_request after_move (substr at.0 0 header_end)) [
            | err e ↦ thrown e at
            | ok req ↦
                if ltb cfg.max_start_line (length req.path)
                then thrown (error http_request_path_error (text "request path too long")) at
                else read_body fuel req (drop (header_end + 4) at.0) at.0 at.1
          ]
        ])
        else returned none at)
