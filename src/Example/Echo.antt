-- ===== src/Example/Echo.antt =====
-- example/coro_example/coro_echo.cpp: `handle_client`. What it prints on the console is not modelled.
pub mod Echoes
use ccnet_utilities.Common.{
  ℕ, zero, suc, Bool, false, Option, none, some, [], ◌∷◌, ◌==◌, if◌then◌else◌, Bytes, codes,
}
use ccnet_utilities.CoroHttp.Socket.{Socket, got, failed}

abbrev pub buffer_size : ℕ
buffer_size = 4096

abbrev pub welcome : Bytes
welcome = codes "Hello dude, press q <enter> to quit\n"

-- `n == 2 && buf[0] == 'q'`, where `n` bytes were read.
unfoldable pub is_quit : Bytes → Bool
is_quit (b ∷ c ∷ []) = b == b'q'
is_quit bs = false

-- `close` is `CoroClientSocket::close`.
module _ (sock : Socket) (close : sock.State → sock.State) where
  -- The loop, with fuel for its rounds: `none` where that runs out, and else the state at `co_return`.
  unfoldable pub echo_loop : ℕ → sock.State → Option sock.State
  echo_loop zero st = none
  echo_loop (suc fuel) st = elim (sock.async_read st buffer_size).0 [
    | failed ↦ some (close (sock.async_read st buffer_size).1)
    | got [] ↦ some (close (sock.async_read st buffer_size).1)
    | got (b ∷ bs) ↦
        let again : Option sock.State =
          echo_loop fuel (sock.async_write (sock.async_read st buffer_size).1 (b ∷ bs)).1 in
        if is_quit (b ∷ bs) then some (close (sock.async_read st buffer_size).1) else again
  ]

  unfoldable pub handle_client : ℕ → sock.State → Option sock.State
  handle_client fuel st = echo_loop fuel (sock.async_write st welcome).1
