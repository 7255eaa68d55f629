-- ===== src/Sockets/Coro.antt =====
-- library/coro_sockets/coro_sys_socket.h and coro_sys_socket.cpp: `CoroClientSocket` and
-- `CoroServerSocket`. Fuel bounds how often a call is made again.
pub mod Stream
pub mod Reading
pub mod Writing
pub mod Interface
pub mod Listener
pub mod Accepting
pub mod Serving
pub mod TwoWay
pub mod Requests
use ccnet_utilities.Common.{
  ℕ, zero, suc, ◌+◌, Option, none, some, List, [], ◌∷◌, ltb, if◌then◌else◌, length, drop, Bytes,
  text,
}
use ccnet_utilities.Common.{ℤ}
use ccnet_utilities.CoroHttp.Socket.{ReadResult, WriteResult, got}
use ccnet_utilities.CoroHttp.Socket
use ccnet_utilities.Platform.Events.{Event, monitor_read, monitor_write}
use ccnet_utilities.Sockets.Errors.{accept_error, plain}
use ccnet_utilities.Sockets.Server
use ccnet_utilities.Sockets.Sys.{
  Errno, would_block, Call, returned, failed, Sync, async, is_valid_socket_raw, Os, Heap, Socket,
  ClientSocket, ServerSocket, Ended, ended, thrown, double_free, starved, client_of,
  set_internal_data, invalid_handle,
}
use ccnet_utilities.Sockets.Sys

-- The operating system, and `co_await await_io_event(fd, event)`: the world when the coroutine is
-- resumed, or what `add_waiter` has thrown.
pub record Async : Type 1 where
  pub os : Os
  pub await_io_event : os.World → ℤ → Event → Ended os.World (Unit {0})

-- An exception, or a mistake of the model, ends the caller too.
abbrev pub then_do : {W A B : Type 0} → Ended W A → (A → W → Ended W B) → Ended W B
then_do (ended a w) next = next a w
then_do (thrown e w) next = thrown e w
then_do double_free next = double_free
then_do starved next = starved

-- `co_await` of a coroutine that gives a pointer: `unhandled_exception` does nothing, so that behind
-- an exception the pointer is null (`none`).
abbrev pub or_null : {W A B : Type 0} → Ended W A → (Option A → W → Ended W B) → Ended W B
or_null (ended a w) next = next (some a) w
or_null (thrown e w) next = next none w
or_null double_free next = double_free
or_null starved next = starved

module _ (sys : Async) where
  abbrev pub World : Type 0
  World = sys.os.World

  unfoldable pub async_read : ℕ → ℤ → ℕ → World → Ended World ReadResult
  async_read zero fd buffer_size w = starved
  async_read (suc fuel) fd buffer_size w =
      then_do (Sys.read sys.os (suc fuel) fd buffer_size w) (λ n w₁.
        let again : Ended World ReadResult =
          then_do (sys.await_io_event w₁ fd monitor_read)
            (λ _ w₂. async_read fuel fd buffer_size w₂) in
        elim n [
          | returned bs ↦ ended (got bs) w₁
          | failed e ↦ if would_block e then again else ended Socket.failed w₁
        ])

  -- The loop of `async_write`. A result of 0 is judged by what `errno` holds by then.
  unfoldable pub async_write : ℕ → ℤ → Bytes → ℕ → World → Ended World WriteResult
  async_write zero fd buffer sent w = starved
  async_write (suc fuel) fd buffer sent w =
      let round : Ended World WriteResult =
        then_do (Sys.write sys.os (suc fuel) fd (drop sent buffer) w) (λ n w₁.
          let again : Ended World WriteResult =
            then_do (sys.await_io_event w₁ fd monitor_write)
              (λ _ w₂. async_write fuel fd buffer sent w₂) in
          elim n [
            | returned (suc k) ↦ async_write fuel fd buffer (sent + suc k) w₁
            | returned zero ↦ if would_block (sys.os.last_errno w₁) then again else ended none w₁
            | failed e ↦ if would_block e then again else ended none w₁
          ]) in
      if ltb sent (length buffer) then round else ended (some (length buffer)) w

  -- `CoroServerSocket::accept`, which is not that of `ServerSocket`.
  unfoldable pub accept :
      Sync → ServerSocket → Heap × World → Ended (Heap × World) (Option ClientSocket)
  accept uninitialised s (heap, w) =
      let (res, w') = sys.os.accept4 w s.socket_fd async in
      let called : Ended (Heap × World) (Option ClientSocket) = elim res [
        | failed n ↦
            if would_block n
            then ended none (heap, w')
            else thrown (plain accept_error (text "Error in Accept!")) (heap, w')
        | returned (fd, cli) ↦
            let (result, heap') = set_internal_data cli (client_of uninitialised fd) heap in
            ended (some result) (heap', w')
      ] in
      if is_valid_socket_raw s.socket_fd then called else thrown invalid_handle (heap, w)

  -- `await_io_event` and `listen` leave the heap as it is.
  abbrev pub with_heap : {A : Type 0} → Heap → Ended World A → Ended (Heap × World) A
  with_heap heap (ended a w) = ended a (heap, w)
  with_heap heap (thrown e w) = thrown e (heap, w)
  with_heap heap double_free = double_free
  with_heap heap starved = starved

  -- `__async_accept`.
  unfoldable pub async_accept :
      ℕ → Sync → ServerSocket → Heap × World → Ended (Heap × World) ClientSocket
  async_accept zero uninitialised s st = starved
  async_accept (suc fuel) uninitialised s st = then_do (accept uninitialised s st) (λ client st₁.
      let again : Ended (Heap × World) ClientSocket =
        then_do (with_heap st₁.0 (sys.await_io_event st₁.1 s.socket_fd monitor_read))
          (λ _ st₂. async_accept fuel uninitialised s st₂) in
      elim client [ some client_socket ↦ ended client_socket st₁ | none ↦ again ])

  -- `__accept_loop`, which does not end: the arguments of the callback in its first rounds, in the
  -- order in which its coroutines are spawned.
  unfoldable pub accept_loop :
      ℕ → ℕ → Sync → ServerSocket → Heap × World → Ended (Heap × World) (List (Option ClientSocket))
  accept_loop fuel zero uninitialised s st = ended [] st
  accept_loop fuel (suc rounds) uninitialised s st =
      or_null (async_accept fuel uninitialised s st) (λ client st₁.
        then_do (accept_loop fuel rounds uninitialised s st₁)
          (λ clients st₂. ended (client ∷ clients) st₂))

  -- `run_server`: `listen`, and then the accept loop, whose coroutine is spawned and which
  -- `Scheduler::run()` resumes. What the scheduler does while that waits is part of `await_io_event`.
  unfoldable pub run_server :
      ℕ → ℕ → Sync → ServerSocket → Heap × World → Ended (Heap × World) (List (Option ClientSocket))
  run_server fuel rounds uninitialised s (heap, w) =
      then_do (with_heap heap (Server.listen sys.os async s w))
        (λ listening st. accept_loop fuel rounds uninitialised listening st)

  -- `CoroClientSocket::close` and `CoroServerSocket::close` call `Socket::close`.
  unfoldable pub close : Socket → World → Socket × World
  close s w = Sys.close sys.os s w
