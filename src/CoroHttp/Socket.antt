-- ===== src/CoroHttp/Socket.antt =====
-- What the reader and the writer ask of library/coro_sockets/coro_sys_socket.h: `async_read` and
-- `async_write` of `CoroClientSocket`, and what each is promised to do.
use ccnet_utilities.Common.{
  ℕ, ◌≤◌, ◌<◌, ◌≡◌, ◌≢◌, Option, none, some, [], ◌∷◌, ◌++◌, length, take, Bytes,
}

-- `n` bytes were read, none at the end of the stream, or the result was negative.
pub data ReadResult : Type 0 where
  got : Bytes → ReadResult
  failed : ReadResult

-- The result of a write, which is `none` where it is negative.
abbrev pub WriteResult : Type 0
WriteResult = Option ℕ

pub record Socket : Type 1 where
  pub State : Type 0
  pub async_read : State → ℕ → ReadResult × State
  pub async_write : State → Bytes → WriteResult × State

-- The promise of `async_read`. `pending` is what the peer has sent, or will send before it closes,
-- and nobody has read.
pub record Reads (sock : Socket) : Type 0 where
  pub pending : sock.State → Bytes
  pub got_within :
      (st : sock.State) (n : ℕ) {bs : Bytes} → (sock.async_read st n).0 ≡ got bs → length bs ≤ n
  pub got_pending :
      (st : sock.State) (n : ℕ) {bs : Bytes}
      → (sock.async_read st n).0 ≡ got bs
      → pending st ≡ bs ++ pending (sock.async_read st n).1
  pub failed_pending :
      (st : sock.State) (n : ℕ)
      → (sock.async_read st n).0 ≡ failed
      → pending st ≡ pending (sock.async_read st n).1

-- A stream that does not fail: as long as bytes are pending, some of them are read.
pub record Delivers {sock : Socket} (r : Reads sock) : Type 0 where
  pub some_got :
      (st : sock.State) (n : ℕ)
      → 0 < n
      → r.pending st ≢ []
      → (b : ℕ) × (bs : Bytes) × ((sock.async_read st n).0 ≡ got (b ∷ bs))

-- The promise of `async_write`: all bytes go out and their number is returned, or it fails behind
-- some of them. `sent` is all that has gone out.
pub record Writes (sock : Socket) : Type 0 where
  pub sent : sock.State → Bytes
  pub wrote_all :
      (st : sock.State) (bs : Bytes) {n : ℕ}
      → (sock.async_write st bs).0 ≡ some n
      → (n ≡ length bs) × (sent (sock.async_write st bs).1 ≡ sent st ++ bs)
  pub wrote_some :
      (st : sock.State) (bs : Bytes)
      → (sock.async_write st bs).0 ≡ none
      → (k : ℕ) × (k ≤ length bs) × (sent (sock.async_write st bs).1 ≡ sent st ++ take k bs)

-- A connection that takes whatever is written to it.
pub record Accepts (sock : Socket) : Type 0 where
  pub accepted : (st : sock.State) (bs : Bytes) → (sock.async_write st bs).0 ≡ some (length bs)

-- Reading sends nothing, and writing takes nothing from what is to be read.
pub record Duplex {sock : Socket} (r : Reads sock) (w : Writes sock) : Type 0 where
  pub read_sent : (st : sock.State) (n : ℕ) → w.sent (sock.async_read st n).1 ≡ w.sent st
  pub write_pending :
      (st : sock.State) (bs : Bytes) → r.pending (sock.async_write st bs).1 ≡ r.pending st
