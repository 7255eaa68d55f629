-- ===== src/Sockets/Coro/Stream.antt =====
-- What a connected stream socket promises, as recv(2), send(2) and epoll document it.
use ccnet_utilities.Common.{ℕ, ◌≤◌, ◌<◌, ◌≡◌, ◌≢◌, ◌⊎◌, true, [], ◌++◌, length, take, Bytes}
use ccnet_utilities.Common.{ℤ}
use ccnet_utilities.Platform.Events.{monitor_read, monitor_write}
use ccnet_utilities.Sockets.Coro.{Async}
use ccnet_utilities.Sockets.Sys.{
  Errno, eintr, returned, failed, would_block, is_valid_socket_raw, ended, other,
}

-- `pending` is what the peer has sent, or will send before it closes, and nobody has read; `sent` is
-- what has gone out. `patience` bounds how often calls are still interrupted or would block. Nobody
-- else reads from the descriptor or writes to it, and its events can be awaited.
pub record Stream (sys : Async) (fd : ℤ) : Type 0 where
  pub valid : is_valid_socket_raw fd ≡ true
  pub pending : sys.os.World → Bytes
  pub sent : sys.os.World → Bytes
  pub patience : sys.os.World → ℕ
  pub received :
      (w : sys.os.World) (n : ℕ) {bs : Bytes}
      → (sys.os.recv w fd n).0 ≡ returned bs
      → (length bs ≤ n) × (pending w ≡ bs ++ pending (sys.os.recv w fd n).1)
  pub end_of_stream :
      (w : sys.os.World) (n : ℕ) → (sys.os.recv w fd n).0 ≡ returned [] → 0 < n → pending w ≡ []
  pub not_received :
      (w : sys.os.World) (n : ℕ) {e : Errno}
      → (sys.os.recv w fd n).0 ≡ failed e
      → pending w ≡ pending (sys.os.recv w fd n).1
  pub recv_again :
      (w : sys.os.World) (n : ℕ) {e : Errno}
      → (sys.os.recv w fd n).0 ≡ failed e
      → (e ≡ eintr) ⊎ (would_block e ≡ true)
      → patience (sys.os.recv w fd n).1 < patience w
  pub wrote :
      (w : sys.os.World) (bs : Bytes) {n : ℕ}
      → (sys.os.send w fd bs).0 ≡ returned n
      → (n ≤ length bs)
        × (sent (sys.os.send w fd bs).1 ≡ sent w ++ take n bs)
        × (patience (sys.os.send w fd bs).1 ≤ patience w)
  pub wrote_some : (w : sys.os.World) (bs : Bytes) → (sys.os.send w fd bs).0 ≡ returned 0 → bs ≡ []
  pub not_wrote :
      (w : sys.os.World) (bs : Bytes) {e : Errno}
      → (sys.os.send w fd bs).0 ≡ failed e
      → sent (sys.os.send w fd bs).1 ≡ sent w
  pub send_again :
      (w : sys.os.World) (bs : Bytes) {e : Errno}
      → (sys.os.send w fd bs).0 ≡ failed e
      → (e ≡ eintr) ⊎ (would_block e ≡ true)
      → patience (sys.os.send w fd bs).1 < patience w
  pub awaited_read :
      (w : sys.os.World)
      → (w' : sys.os.World) × (sys.await_io_event w fd monitor_read ≡ ended tt w')
        × (pending w ≡ pending w')
        × (patience w' ≤ patience w)
  pub awaited_write :
      (w : sys.os.World)
      → (w' : sys.os.World) × (sys.await_io_event w fd monitor_write ≡ ended tt w')
        × (sent w' ≡ sent w)
        × (patience w' ≤ patience w)

-- A connection that does not fail.
abbrev pub IsHealthy : Async → ℤ → Type 0
IsHealthy sys fd = (w : sys.os.World) (n k : ℕ) → (sys.os.recv w fd n).0 ≢ failed (other k)
