-- ===== src/Sockets/Coro/Interface.antt =====
-- A stream as the socket that the reader and the writer of CoroHttp take.
use ccnet_utilities.CoroHttp.Reader.Body.{reply, read_sized_body-take}
use ccnet_utilities.CoroHttp.Reader.{max_temp_read_buffer, read_sized_body}
use ccnet_utilities.Cpp.Numbers.{stoull}
use ccnet_utilities.Http.Request.{Request}
use ccnet_utilities.Http.ServerConfig.{ServerConfig}
use ccnet_utilities.Common.{
  ◌<◌, ◌≤◌, length, Bytes, ◌++◌, ℕ, suc, ◌+◌, ◌≤◌, ◌<◌, ◌≡◌, refl, sym, subst, ◌≢◌, none, some, [],
  ◌∷◌, ◌++◌, arith, length, Bytes,
}
use ccnet_utilities.Common.{ℤ}
use ccnet_utilities.CoroHttp.Socket.{ReadResult, WriteResult, got, Reads, Writes, Delivers}
use ccnet_utilities.CoroHttp.Socket
use ccnet_utilities.Sockets.Coro.Reading.{Got, async_read-Got}
use ccnet_utilities.Sockets.Coro.Stream.{Stream, IsHealthy}
use ccnet_utilities.Sockets.Coro.Writing.{Put, async_write-Put}
use ccnet_utilities.Sockets.Coro.{Async, World, async_read, async_write}
use ccnet_utilities.Sockets.Sys.{Ended, ended, thrown, double_free, starved}

-- The coroutine's result, where it returns.
abbrev pub result : {A W : Type 0} → A → W → Ended W A → A × W
result a w (ended b w') = (b, w')
result a w (thrown e w') = (a, w')
result a w double_free = (a, w)
result a w starved = (a, w)

module _ {sys : Async} {fd : ℤ} (s : Stream sys fd) where
  -- `co_await sock_->async_read(...)`, with fuel that is enough.
  unfoldable pub stream_read : World sys → ℕ → ReadResult × World sys
  stream_read w n = result Socket.failed w (async_read sys (suc (s.patience w)) fd n w)

  unfoldable pub stream_write : World sys → Bytes → WriteResult × World sys
  stream_write w bs = result none w (async_write sys (suc (s.patience w + length bs)) fd bs 0 w)

  abbrev pub stream_socket : Socket.Socket
  stream_socket = record { State = World sys; async_read = stream_read; async_write = stream_write }

  stream_read-Got : (w : World sys) (n : ℕ) → Got s w n (stream_read w n).0 (stream_read w n).1
  unfolding stream_read
  stream_read-Got w n =
      let (res, w', done, g) = async_read-Got s (suc (s.patience w)) n w (omega arith) in
      subst (λ o. Got s w n (result Socket.failed w o).0 (result Socket.failed w o).1) (sym done) g

  pub stream_write-Put :
      (w : World sys) (bs : Bytes)
      → Put s w bs (length bs) (stream_write w bs).0 (stream_write w bs).1
  unfolding stream_write
  stream_write-Put w bs =
      let (res, w', done, p) =
        async_write-Put s (suc (s.patience w + length bs)) bs 0 w (omega arith) in
      subst (λ o. Put s w bs (length bs) (result none w o).0 (result none w o).1) (sym done) p

  pub got_case :
      (w : World sys) (n : ℕ) {bs : Bytes}
      → (stream_read w n).0 ≡ got bs
      → Got s w n (got bs) (stream_read w n).1
  got_case w n e = subst (λ r. Got s w n r (stream_read w n).1) e (stream_read-Got w n)

  pub failed_case :
      (w : World sys) (n : ℕ)
      → (stream_read w n).0 ≡ Socket.failed
      → Got s w n Socket.failed (stream_read w n).1
  failed_case w n e = subst (λ r. Got s w n r (stream_read w n).1) e (stream_read-Got w n)

  -- The promises of `CoroHttp.Socket` are kept.
  abbrev pub stream_reads : Reads stream_socket
  stream_reads = record {
    pending = s.pending;
    got_within = λ st n e. (got_case st n e).0;
    got_pending = λ st n e. (got_case st n e).1;
    failed_pending = λ st n e. (failed_case st n e).0;
  }

  abbrev pub stream_writes : Writes stream_socket
  stream_writes = record {
    sent = s.sent;
    wrote_all = λ st bs {n} e.
        subst (λ r. Put s st bs (length bs) r (stream_write st bs).1) e (stream_write-Put st bs);
    wrote_some = λ st bs e.
        let (k, le, sent, refused) =
          subst (λ r. Put s st bs (length bs) r (stream_write st bs).1) e
            (stream_write-Put st bs) in
        (k, le, sent);
  }

  pub some_read :
      (w : World sys) (n : ℕ)
      → IsHealthy sys fd
      → 0 < n
      → s.pending w ≢ []
      → (b : ℕ) × (bs : Bytes) × ((stream_read w n).0 ≡ got (b ∷ bs))
  some_read w n healthy h ne = by_result (stream_read w n).0 refl
    where
      by_result :
          (res : ReadResult)
          → (stream_read w n).0 ≡ res
          → (b : ℕ) × (bs : Bytes) × ((stream_read w n).0 ≡ got (b ∷ bs))
      by_result (got []) e = absurd (ne ((got_case w n e).2 refl h))
      by_result (got (b ∷ bs)) e = (b, bs, e)
      by_result Socket.failed e =
          let (w', k, broken) = (failed_case w n e).1 in absurd (healthy w' n k broken)

  abbrev pub stream_delivers : IsHealthy sys fd → Delivers stream_reads
  stream_delivers healthy = record { some_got = λ w n h ne. some_read w n healthy h ne }

  -- Over a stream whose `recv` does not fail, the body of a request with a `content-length` that spells
  -- `n`, where `n` is within `max_body_bytes` and the bytes to come, is exactly the next `n` bytes of the
  -- connection, however often calls are interrupted, would block or give fewer bytes. The blocks are of
  -- 1 to 4096 bytes, and the fuel is above `n`.
  read_sized_body-stream_socket :
      (cfg : ServerConfig) (fuel n : ℕ) (content_length : Bytes) (req : Request)
      (after accum : Bytes) (w : World sys) (some_block : 0 < cfg.read_block)
      (small : cfg.read_block ≤ max_temp_read_buffer)
      → IsHealthy sys fd
      → stoull content_length ≡ some n
      → n ≤ cfg.max_body_bytes
      → n < fuel
      → n ≤ length (after ++ s.pending w)
      → (w' : World sys) × (read_sized_body stream_socket cfg fuel content_length req after accum w
          ≡ reply cfg stream_reads some_block small req n (after ++ s.pending w) accum w')
  read_sized_body-stream_socket cfg fuel n content_length req after accum w some_block small healthy
        e body h enough =
      read_sized_body-take cfg stream_reads some_block small fuel n content_length req after accum w
        (stream_delivers healthy) e body h enough
