-- ===== src/Sockets/Await/Woken.antt =====
-- Who awaits an event of a socket is ready when it has come.
use ccnet_utilities.Common.{arith}
use ccnet_utilities.Platform.Events.{Waiter, adapt}
use ccnet_utilities.Platform.Scheduler.{drain}
use ccnet_utilities.Platform.Scheduler.Spares.{Drained, Drained-drain, Drained-Holds}
use ccnet_utilities.Platform.Scheduler.Wakes.{settle-Reported, waits-Holds}
use ccnet_utilities.Common.{ℕ, ◌<◌, ◌≡◌, ◌≢◌, none, some, List}
use ccnet_utilities.Common.{ℤ, pos}
use ccnet_utilities.Platform.Events.{Event, Handle, add_waiter}
use ccnet_utilities.Platform.Events.Table.{count, IsUnique}
use ccnet_utilities.Platform.Events.Wakes.{Reported}
use ccnet_utilities.Platform.Scheduler.{Platform, Scheduler, suspended, run_coroutine, settle}
use ccnet_utilities.Platform.Scheduler.Wakes.{reports}
use ccnet_utilities.Sockets.Await.{await_io_event, await_suspend}

module _ (platform : Platform) where
  -- The scheduler when the coroutine `h` has called `co_await await_io_event(fd, events)`.
  abbrev pub awaiting :
      ℤ → Event → Handle → platform.epoll.World → Scheduler platform → Scheduler platform
  awaiting fd events h w s =
      run_coroutine platform
        (await_suspend (await_io_event fd events) h w (λ thrown v. suspended v)) s

  -- A coroutine awaits an event of a descriptor, where each descriptor stands once in the table of
  -- waiters, and `add_waiter` does not throw. The inner loop then resumes all that is ready, and those
  -- that are started by it, up to a state in which nothing is ready; none of them waits for the same
  -- descriptor. If epoll reports the descriptor, among others, behind that loop, the coroutine is in
  -- the ready queue at the end of the round, whoever else is asleep or waiting.
  pub settle-await_suspend :
      (fd : ℕ) (events : Event) (h : Handle) (w : platform.epoll.World) (s s' : Scheduler platform)
      (fds : List ℕ)
      → h ≢ 0
      → IsUnique s.manager.table
      → (add_waiter platform.epoll
          (pos fd)
          events
          h
          (record { world = w; table = s.manager.table })).0
        ≡ none
      → Drained platform fd (awaiting (pos fd) events h w s) s'
      → reports platform s' ≡ some fds
      → Reported fd fds
      → (fuel : ℕ) × (drain platform fuel (awaiting (pos fd) events h w s) ≡ some s')
        × (0 < count h (settle platform s').ready_coroutines)
  unfolding await_io_event await_suspend
  settle-await_suspend fd events h w s s' fds nonnull u accepted drained ready reported =
      let waiter : Waiter = record { events = adapt events; handle = h } in
      let (there, u') =
        Drained-Holds platform fd waiter drained
          (waits-Holds platform fd events h w s u accepted) in
      let (fuel, done) = Drained-drain platform fd drained in
      (
        fuel,
        done,
        omega (arith, settle-Reported platform fd waiter s' fds nonnull u' there ready reported),
      )
