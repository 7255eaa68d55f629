-- ===== src/Platform/Scheduler.antt =====
-- platform/coro_platform/scheduler.hpp and scheduler.cpp: `Scheduler`. Times are in nanoseconds of
-- the steady clock. Fuel bounds the number of coroutines resumed and of rounds.
pub mod Fair
pub mod Sleepers
pub mod TimeOut
pub mod Account
pub mod Spares
pub mod Wakes
use ccnet_utilities.Common.{
  ℕ, zero, suc, ◌+◌, ◌-◌, ◌*◌, ◌/◌, Bool, true, Option, none, some, List, [], ◌∷◌, ◌++◌, ltb, leb,
  if◌then◌else◌,
}
use ccnet_utilities.Common.{ℤ, pos, negsuc, to_int32}
use ccnet_utilities.Platform.Exceptions.{IoManagerException}
use ccnet_utilities.Platform.Events.{Epoll, Event, Handle, Manager, add_waiter, poll, has_watchers}

-- What a coroutine does from its resumption to its next suspension: the calls that it makes of the
-- scheduler and of the event manager. `add_waiter` may throw, which the coroutine sees.
pub data Run (W : Type 0) : Type 0 where
  suspended : W → Run W
  spawns : Handle → Run W → Run W
  sleeps : Handle → ℕ → Run W → Run W
  waits : ℤ → Event → Handle → W → (Option IoManagerException → W → Run W) → Run W

-- The operating system, the clock, `std::this_thread::sleep_until`, and the code of the coroutines.
pub record Platform : Type 1 where
  pub epoll : Epoll
  pub now : epoll.World → ℕ × epoll.World
  pub thread_sleep_until : epoll.World → ℕ → epoll.World
  pub resume : epoll.World → Handle → Run epoll.World

pub record SleepItem : Type 0 where
  pub sleep : ℕ
  pub coro_handle : Handle

-- `sleepys.emplace`. The queue is kept in the order in which its items come to the top; of items
-- with one time, which the standard leaves open, the earlier one comes first.
unfoldable pub emplace : SleepItem → List SleepItem → List SleepItem
emplace item [] = item ∷ []
emplace item (x ∷ rest) = if ltb item.sleep x.sleep then item ∷ x ∷ rest else x ∷ emplace item rest

abbrev pub nanos_per_milli : ℕ
nanos_per_milli = 1000000

-- The `wake_time` of an `AwaitableSleep`, by which a coroutine `sleeps`.
unfoldable pub wake_time : ℕ → ℕ → ℕ
wake_time now how_long = now + how_long * nanos_per_milli

module _ (platform : Platform) where
  pub record Scheduler : Type 0 where
    pub ready_coroutines : List Handle
    pub sleepys : List SleepItem
    pub manager : Manager platform.epoll

  abbrev pub internal_spawn : Handle → Scheduler → Scheduler
  internal_spawn h s = record s { ready_coroutines = s.ready_coroutines ++ h ∷ [] }

  abbrev pub sleep_until : Handle → ℕ → Scheduler → Scheduler
  sleep_until which until_when s = record s {
    sleepys = emplace (record { sleep = until_when; coro_handle = which }) s.sleepys;
  }

  abbrev pub with_world : platform.epoll.World → Scheduler → Scheduler
  with_world w s = record s { manager = record { world = w; table = s.manager.table } }

  abbrev pub with_manager : Manager platform.epoll → Scheduler → Scheduler
  with_manager m s = record s { manager = m }

  -- `front_one.resume()`.
  unfoldable pub run_coroutine : Run platform.epoll.World → Scheduler → Scheduler
  run_coroutine (suspended w) s = with_world w s
  run_coroutine (spawns h r) s = run_coroutine r (internal_spawn h s)
  run_coroutine (sleeps h t r) s = run_coroutine r (sleep_until h t s)
  run_coroutine (waits fd events h w k) s =
      run_coroutine
        (k (add_waiter platform.epoll fd events h (record { world = w; table = s.manager.table })).0
          (add_waiter platform.epoll fd events h
            (record { world = w; table = s.manager.table })).1.world)
        (with_manager
          (add_waiter platform.epoll fd events h (record { world = w; table = s.manager.table })).1
          s)

  -- The coroutine at the front, which is popped first.
  unfoldable pub resume_front : Handle → List Handle → Scheduler → Scheduler
  resume_front front_one rest s =
      run_coroutine (platform.resume s.manager.world front_one)
        (record s { ready_coroutines = rest })

  -- The inner loop; `none` is out of fuel.
  unfoldable pub drain : ℕ → Scheduler → Option Scheduler
  drain zero s = none
  drain (suc fuel) s = elim s.ready_coroutines [
    | [] ↦ some s
    | h ∷ rest ↦ drain fuel (resume_front h rest s)
  ]

  -- Sleepers whose time has come move to the ready queue.
  unfoldable pub wake : ℕ → List Handle → List SleepItem → List Handle × List SleepItem
  wake now ready [] = (ready, [])
  wake now ready (x ∷ rest) =
      let woken : List Handle × List SleepItem = wake now (ready ++ x.coro_handle ∷ []) rest in
      if leb x.sleep now then woken else (ready, x ∷ rest)

  -- `diff` is 0 where it would be negative.
  unfoldable pub time_left : ℕ → ℕ → ℤ
  time_left next now = to_int32 ((next - now) / nanos_per_milli)

  unfoldable pub time_out_of :
      List Handle → List SleepItem → platform.epoll.World → ℤ × platform.epoll.World
  time_out_of (h ∷ rest) items w = (pos 0, w)
  time_out_of [] [] w = (negsuc 0, w)
  time_out_of [] (x ∷ items) w = (time_left x.sleep (platform.now w).0, (platform.now w).1)

  unfoldable pub caculate_time_out : Scheduler → ℤ × platform.epoll.World
  unfolding time_out_of
  caculate_time_out s = time_out_of s.ready_coroutines s.sleepys s.manager.world

  unfoldable pub wake_sleepers : Scheduler → Scheduler
  wake_sleepers s =
      let (now, w) = platform.now s.manager.world in
      let (ready, sleepys) = wake now s.ready_coroutines s.sleepys in
      record {
        ready_coroutines = ready;
        sleepys = sleepys;
        manager = record { world = w; table = s.manager.table };
      }

  -- `poll`, whose handles are pushed in their order.
  unfoldable pub poll_io : Scheduler → Scheduler
  poll_io s =
      let (timeout_ms, w) = caculate_time_out s in
      let (ready_from_io, m) =
        poll platform.epoll timeout_ms (record { world = w; table = s.manager.table }) [] in
      record {
        ready_coroutines = s.ready_coroutines ++ ready_from_io;
        sleepys = s.sleepys;
        manager = m;
      }

  -- With nothing ready the thread sleeps until the next sleeper.
  unfoldable pub rest_until : List Handle → List SleepItem → Scheduler → Scheduler
  rest_until (h ∷ rest) items s = s
  rest_until [] [] s = s
  rest_until [] (x ∷ items) s = with_world (platform.thread_sleep_until s.manager.world x.sleep) s

  unfoldable pub rest_thread : Scheduler → Scheduler
  unfolding rest_until
  rest_thread s = rest_until s.ready_coroutines s.sleepys s

  -- A round behind its inner loop.
  unfoldable pub settle : Scheduler → Scheduler
  settle s = rest_thread (poll_io (wake_sleepers s))

  unfoldable pub has_work : Scheduler → Bool
  has_work s = elim s.ready_coroutines [
    | h ∷ rest ↦ true
    | [] ↦ elim s.sleepys [ x ∷ items ↦ true | [] ↦ has_watchers platform.epoll s.manager ]
  ]

  -- `__run`, with fuel for its rounds and for the coroutines in each.
  unfoldable pub run : ℕ → ℕ → Scheduler → Option Scheduler
  run resumes zero s = none
  run resumes (suc rounds) s =
      let round : Option Scheduler = elim (drain resumes s) [
        | none ↦ none
        | some s' ↦ run resumes rounds (settle s')
      ] in
      if has_work s then round else some s
