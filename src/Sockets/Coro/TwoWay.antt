-- ===== src/Sockets/Coro/TwoWay.antt =====
-- The two directions of a stream do not disturb each other, also through `async_read` and
-- `async_write`.
use ccnet_utilities.Common.{
  ℕ, zero, suc, ◌+◌, ◌≡◌, refl, ◌∙◌, Bool, true, false, none, ltb, if◌then◌else◌, length, drop,
  Bytes,
}
use ccnet_utilities.Common.{ℤ}
use ccnet_utilities.CoroHttp.Socket.{Duplex, ReadResult, WriteResult, got}
use ccnet_utilities.CoroHttp.Socket
use ccnet_utilities.Platform.Events.{monitor_read, monitor_write}
use ccnet_utilities.Sockets.Coro.Interface.{
  result, stream_read, stream_write, stream_reads, stream_writes,
}
use ccnet_utilities.Sockets.Coro.Stream.{Stream}
use ccnet_utilities.Sockets.Coro.{Async, World, async_read, async_write, then_do}
use ccnet_utilities.Sockets.Sys.{
  Errno, eintr, eagain, ewouldblock, other, Call, returned, failed, would_block, Ended, ended,
  thrown, double_free, starved, recv_loop, send_loop, is_valid_socket_raw,
}
use ccnet_utilities.Sockets.Sys

-- The world that is left satisfies `p`.
abbrev Keeps : {W A : Type 0} → (W → Type 0) → Ended W A → Type 0
Keeps p (ended a w) = p w
Keeps p (thrown e w) = p w
Keeps p double_free = Unit {0}
Keeps p starved = Unit {0}

then_do-Keeps :
    {W A B : Type 0} (p : W → Type 0) (o : Ended W A) (next : A → W → Ended W B)
    → Keeps p o
    → ((a : A) (w : W) → p w → Keeps p (next a w))
    → Keeps p (then_do o next)
then_do-Keeps p (ended a w) next h n = n a w h
then_do-Keeps p (thrown e w) next h n = h
then_do-Keeps p double_free next h n = tt
then_do-Keeps p starved next h n = tt

if-Keeps :
    {W A : Type 0} (p : W → Type 0) (b : Bool) (x y : Ended W A)
    → Keeps p x
    → Keeps p y
    → Keeps p (if b then x else y)
if-Keeps p true x y hx hy = hx
if-Keeps p false x y hx hy = hy

result-Keeps :
    {W A : Type 0} (p : W → Type 0) (a : A) (w : W) (o : Ended W A)
    → p w
    → Keeps p o
    → p (result a w o).1
result-Keeps p a w (ended b w') h k = k
result-Keeps p a w (thrown e w') h k = k
result-Keeps p a w double_free h k = h
result-Keeps p a w starved h k = h

module _ (sys : Async) (fd : ℤ) (good : World sys → Type 0) where
  module _ (received : (w : World sys) (n : ℕ) → good w → good (sys.os.recv w fd n).1) where
    recv_loop-Keeps :
        (fuel n : ℕ) (w : World sys) → good w → Keeps good (recv_loop sys.os fuel fd n w)
    unfolding recv_loop
    recv_loop-Keeps zero n w h = tt
    recv_loop-Keeps (suc fuel) n w h =
        go (sys.os.recv w fd n).0 refl
          (recv_loop-Keeps fuel n (sys.os.recv w fd n).1 (received w n h))
      where
        go :
            (res : Call Bytes)
            → (sys.os.recv w fd n).0 ≡ res
            → Keeps good (recv_loop sys.os fuel fd n (sys.os.recv w fd n).1)
            → Keeps good (recv_loop sys.os (suc fuel) fd n w)
        go (returned bs) e ih = rw (e, recv_loop) (received w n h)
        go (failed eintr) e ih = rw (e, recv_loop) ih
        go (failed eagain) e ih = rw (e, recv_loop) (received w n h)
        go (failed ewouldblock) e ih = rw (e, recv_loop) (received w n h)
        go (failed (other k)) e ih = rw (e, recv_loop) (received w n h)

    read-Keeps : (fuel n : ℕ) (w : World sys) → good w → Keeps good (Sys.read sys.os fuel fd n w)
    unfolding Sys.read
    read-Keeps fuel n w h =
        if-Keeps good (is_valid_socket_raw fd) _ _ (recv_loop-Keeps fuel n w h) h

    abbrev after_read : ℕ → ℕ → Call Bytes → World sys → Ended (World sys) ReadResult
    after_read fuel n res w = elim res [
      | returned bs ↦ ended (got bs) w
      | failed e ↦
          if would_block e
          then then_do (sys.await_io_event w fd monitor_read) (λ _ w₂. async_read sys fuel fd n w₂)
          else ended Socket.failed w
    ]

    after_read-Keeps :
        (fuel n : ℕ) (res : Call Bytes) (w : World sys)
        → ((v : World sys) → good v → Keeps good (sys.await_io_event v fd monitor_read))
        → ((v : World sys) → good v → Keeps good (async_read sys fuel fd n v))
        → good w
        → Keeps good (after_read fuel n res w)
    after_read-Keeps fuel n (returned bs) w awaited next h = h
    after_read-Keeps fuel n (failed e) w awaited next h =
        if-Keeps good (would_block e) _ _
          (then_do-Keeps good (sys.await_io_event w fd monitor_read) _ (awaited w h)
            (λ _ w₂ g. next w₂ g))
          h

    async_read-Keeps :
        (fuel n : ℕ) (w : World sys)
        → ((v : World sys) → good v → Keeps good (sys.await_io_event v fd monitor_read))
        → good w
        → Keeps good (async_read sys fuel fd n w)
    unfolding async_read
    async_read-Keeps zero n w awaited h = tt
    async_read-Keeps (suc fuel) n w awaited h =
        then_do-Keeps good (Sys.read sys.os (suc fuel) fd n w) _ (read-Keeps (suc fuel) n w h)
          (λ res w₁ g.
            after_read-Keeps fuel n res w₁ awaited (λ v gv. async_read-Keeps fuel n v awaited gv) g)

  module _ (put : (w : World sys) (bs : Bytes) → good w → good (sys.os.send w fd bs).1) where
    send_loop-Keeps :
        (fuel : ℕ) (bs : Bytes) (w : World sys)
        → good w
        → Keeps good (send_loop sys.os fuel fd bs w)
    unfolding send_loop
    send_loop-Keeps zero bs w h = tt
    send_loop-Keeps (suc fuel) bs w h =
        go (sys.os.send w fd bs).0 refl
          (send_loop-Keeps fuel bs (sys.os.send w fd bs).1 (put w bs h))
      where
        go :
            (res : Call ℕ)
            → (sys.os.send w fd bs).0 ≡ res
            → Keeps good (send_loop sys.os fuel fd bs (sys.os.send w fd bs).1)
            → Keeps good (send_loop sys.os (suc fuel) fd bs w)
        go (returned n) e ih = rw (e, send_loop) (put w bs h)
        go (failed eintr) e ih = rw (e, send_loop) ih
        go (failed eagain) e ih = rw (e, send_loop) (put w bs h)
        go (failed ewouldblock) e ih = rw (e, send_loop) (put w bs h)
        go (failed (other k)) e ih = rw (e, send_loop) (put w bs h)

    write-Keeps :
        (fuel : ℕ) (bs : Bytes) (w : World sys)
        → good w
        → Keeps good (Sys.write sys.os fuel fd bs w)
    unfolding Sys.write
    write-Keeps fuel bs w h =
        if-Keeps good (is_valid_socket_raw fd) _ _ (send_loop-Keeps fuel bs w h) h

    abbrev wait_write : ℕ → Bytes → ℕ → Bool → World sys → Ended (World sys) WriteResult
    wait_write fuel buffer sent blocked w =
        if blocked
        then then_do (sys.await_io_event w fd monitor_write)
            (λ _ w₂. async_write sys fuel fd buffer sent w₂)
        else ended none w

    abbrev after_write : ℕ → Bytes → ℕ → Call ℕ → World sys → Ended (World sys) WriteResult
    after_write fuel buffer sent res w = elim res [
      | returned (suc k) ↦ async_write sys fuel fd buffer (sent + suc k) w
      | returned zero ↦ wait_write fuel buffer sent (would_block (sys.os.last_errno w)) w
      | failed e ↦ wait_write fuel buffer sent (would_block e) w
    ]

    wait_write-Keeps :
        (fuel : ℕ) (buffer : Bytes) (sent : ℕ) (blocked : Bool) (w : World sys)
        → ((v : World sys) → good v → Keeps good (sys.await_io_event v fd monitor_write))
        → ((pos : ℕ) (v : World sys) → good v → Keeps good (async_write sys fuel fd buffer pos v))
        → good w
        → Keeps good (wait_write fuel buffer sent blocked w)
    wait_write-Keeps fuel buffer sent blocked w awaited next h =
        if-Keeps good blocked _ _
          (then_do-Keeps good (sys.await_io_event w fd monitor_write) _ (awaited w h)
            (λ _ w₂ g. next sent w₂ g))
          h

    after_write-Keeps :
        (fuel : ℕ) (buffer : Bytes) (sent : ℕ) (res : Call ℕ) (w : World sys)
        → ((v : World sys) → good v → Keeps good (sys.await_io_event v fd monitor_write))
        → ((pos : ℕ) (v : World sys) → good v → Keeps good (async_write sys fuel fd buffer pos v))
        → good w
        → Keeps good (after_write fuel buffer sent res w)
    after_write-Keeps fuel buffer sent (returned (suc k)) w awaited next h = next (sent + suc k) w h
    after_write-Keeps fuel buffer sent (returned zero) w awaited next h =
        wait_write-Keeps fuel buffer sent (would_block (sys.os.last_errno w)) w awaited next h
    after_write-Keeps fuel buffer sent (failed e) w awaited next h =
        wait_write-Keeps fuel buffer sent (would_block e) w awaited next h

    async_write-Keeps :
        (fuel : ℕ) (buffer : Bytes) (sent : ℕ) (w : World sys)
        → ((v : World sys) → good v → Keeps good (sys.await_io_event v fd monitor_write))
        → good w
        → Keeps good (async_write sys fuel fd buffer sent w)
    unfolding async_write
    async_write-Keeps zero buffer sent w awaited h = tt
    async_write-Keeps (suc fuel) buffer sent w awaited h =
        if-Keeps good (ltb sent (length buffer)) _ _
          (then_do-Keeps good (Sys.write sys.os (suc fuel) fd (drop sent buffer) w) _
            (write-Keeps (suc fuel) (drop sent buffer) w h)
            (λ res w₁ g.
              after_write-Keeps fuel buffer sent res w₁ awaited
                (λ pos v gv. async_write-Keeps fuel buffer pos v awaited gv) g))
          h

-- Of a stream: `recv` sends nothing, `send` takes nothing from what is to be read, and no wait does
-- either.
record TwoWay {sys : Async} {fd : ℤ} (s : Stream sys fd) : Type 0 where
  recv_sent : (w : World sys) (n : ℕ) → s.sent (sys.os.recv w fd n).1 ≡ s.sent w
  send_pending : (w : World sys) (bs : Bytes) → s.pending (sys.os.send w fd bs).1 ≡ s.pending w
  await_sent :
      (w v : World sys)
      → s.sent v ≡ s.sent w
      → Keeps (λ u. s.sent u ≡ s.sent w) (sys.await_io_event v fd monitor_read)
  await_pending :
      (w v : World sys)
      → s.pending v ≡ s.pending w
      → Keeps (λ u. s.pending u ≡ s.pending w) (sys.await_io_event v fd monitor_write)

module _ {sys : Async} {fd : ℤ} {s : Stream sys fd} (both : TwoWay s) where
  stream_read-sent : (w : World sys) (n : ℕ) → s.sent (stream_read s w n).1 ≡ s.sent w
  unfolding stream_read
  stream_read-sent w n =
      result-Keeps (λ u. s.sent u ≡ s.sent w) Socket.failed w
        (async_read sys (suc (s.patience w)) fd n w) refl
        (async_read-Keeps sys fd (λ u. s.sent u ≡ s.sent w) (λ v k h. both.recv_sent v k ∙ h)
          (suc (s.patience w)) n w (both.await_sent w) refl)

  stream_write-pending :
      (w : World sys) (bs : Bytes) → s.pending (stream_write s w bs).1 ≡ s.pending w
  unfolding stream_write
  stream_write-pending w bs =
      result-Keeps (λ u. s.pending u ≡ s.pending w) none w
        (async_write sys (suc (s.patience w + length bs)) fd bs 0 w) refl
        (async_write-Keeps sys fd (λ u. s.pending u ≡ s.pending w)
          (λ v k h. both.send_pending v k ∙ h) (suc (s.patience w + length bs)) bs 0 w
          (both.await_pending w) refl)

  -- So the socket over such a stream is one that `Duplex` describes.
  stream_duplex : Duplex (stream_reads s) (stream_writes s)
  stream_duplex = record { read_sent = stream_read-sent; write_pending = stream_write-pending }
