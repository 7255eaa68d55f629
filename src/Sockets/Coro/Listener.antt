-- ===== src/Sockets/Coro/Listener.antt =====
-- What a listening socket promises.
use ccnet_utilities.Common.{Option, none, some, false}
use ccnet_utilities.Common.{ℕ, ◌≤◌, ◌<◌, ◌≡◌, ◌≢◌, true, List, [], ◌∷◌}
use ccnet_utilities.Common.{ℤ}
use ccnet_utilities.Platform.Events.{monitor_read}
use ccnet_utilities.Sockets.Address.{FullAddress}
use ccnet_utilities.Sockets.Coro.{Async}
use ccnet_utilities.Sockets.Sys.{
  Errno, returned, failed, would_block, ended, is_valid_socket_raw, async,
}

-- A listening socket, as accept4(2) and epoll document it. `queue` is what the calls will give, in
-- their order: the clients that connect, and `none` for each other error, such as an interruption, a
-- connection that was aborted, or a limit of descriptors. `patience` bounds how often a call would
-- block while anything is to come.
pub record Listener (sys : Async) (fd : ℤ) : Type 0 where
  pub valid : is_valid_socket_raw fd ≡ true
  pub queue : sys.os.World → List (Option (ℤ × FullAddress))
  pub patience : sys.os.World → ℕ
  pub accepted :
      (w : sys.os.World) {c : ℤ × FullAddress}
      → (sys.os.accept4 w fd async).0 ≡ returned c
      → (queue w ≡ some c ∷ queue (sys.os.accept4 w fd async).1)
        × (patience (sys.os.accept4 w fd async).1 ≤ patience w)
  pub refused :
      (w : sys.os.World) {e : Errno}
      → (sys.os.accept4 w fd async).0 ≡ failed e
      → would_block e ≡ false
      → (queue w ≡ none ∷ queue (sys.os.accept4 w fd async).1)
        × (patience (sys.os.accept4 w fd async).1 ≤ patience w)
  pub blocked :
      (w : sys.os.World) {e : Errno}
      → (sys.os.accept4 w fd async).0 ≡ failed e
      → would_block e ≡ true
      → queue w ≢ []
      → (queue (sys.os.accept4 w fd async).1 ≡ queue w)
        × (patience (sys.os.accept4 w fd async).1 < patience w)
  pub awaited :
      (w : sys.os.World)
      → queue w ≢ []
      → (w' : sys.os.World) × (sys.await_io_event w fd monitor_read ≡ ended tt w')
        × (queue w' ≡ queue w)
        × (patience w' ≤ patience w)
