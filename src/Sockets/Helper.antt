-- ===== src/Sockets/Helper.antt =====
-- library/coro_sockets/coro_helper.h and coro_helper.cpp: the functions on shared `ClientSocket`s and
-- `ServerSocket`s. Fuel bounds how often a call is made again.
use ccnet_utilities.Common.{Option}
use ccnet_utilities.Common.{ℕ, zero, suc, none, some, List, [], ◌∷◌, Bytes}
use ccnet_utilities.CoroHttp.Socket.{ReadResult, WriteResult}
use ccnet_utilities.Platform.Events.{monitor_read}
use ccnet_utilities.Sockets.Coro
use ccnet_utilities.Sockets.Coro.{Async, then_do, or_null, with_heap, World}
use ccnet_utilities.Sockets.Server
use ccnet_utilities.Sockets.Sys.{
  Sync, async, Heap, ClientSocket, ServerSocket, Ended, ended, starved,
}

module _ (sys : Async) where
  -- The loops are those of `CoroClientSocket`, on `socket->read` and `socket->write`.
  unfoldable pub async_read : ℕ → ClientSocket → ℕ → World sys → Ended (World sys) ReadResult
  async_read fuel socket buffer_size w = Coro.async_read sys fuel socket.socket_fd buffer_size w

  unfoldable pub async_write : ℕ → ClientSocket → Bytes → World sys → Ended (World sys) WriteResult
  async_write fuel socket buffer w = Coro.async_write sys fuel socket.socket_fd buffer 0 w

  -- `__async_accept`, on `server_socket->accept()`.
  unfoldable pub async_accept :
      ℕ → Sync → ServerSocket → Heap × World sys → Ended (Heap × World sys) ClientSocket
  async_accept zero uninitialised s st = starved
  async_accept (suc fuel) uninitialised s st =
      then_do (Server.accept sys.os uninitialised async s st) (λ client st₁.
        let again : Ended (Heap × World sys) ClientSocket =
          then_do (with_heap sys st₁.0 (sys.await_io_event st₁.1 s.socket_fd monitor_read))
            (λ _ st₂. async_accept fuel uninitialised s st₂) in
        elim client [ some client_socket ↦ ended client_socket st₁ | none ↦ again ])

  -- `__accept_loop`: the arguments of the callback in its first rounds.
  unfoldable pub accept_loop :
      ℕ
      → ℕ
      → Sync
      → ServerSocket
      → Heap × World sys
      → Ended (Heap × World sys) (List (Option ClientSocket))
  accept_loop fuel zero uninitialised s st = ended [] st
  accept_loop fuel (suc rounds) uninitialised s st =
      or_null (async_accept fuel uninitialised s st) (λ client st₁.
        then_do (accept_loop fuel rounds uninitialised s st₁)
          (λ clients st₂. ended (client ∷ clients) st₂))
