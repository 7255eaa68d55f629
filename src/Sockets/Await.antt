-- ===== src/Sockets/Await.antt =====
-- `WaitForEvent` and `await_io_event` of library/coro_sockets: coro_sys_socket.cpp, and the same in
-- coro_helper.cpp.
pub mod Woken
use ccnet_utilities.Common.{
  ℕ, zero, suc, ◌+◌, ◌-◌, ◌*◌, ◌/◌, ◌%◌, ◌^◌, ◌≤◌, ◌<◌, min, ◌≡◌, refl, sym, ap, ◌∙◌, subst, ◌≢◌,
  ◌↔◌, ◌⊎◌, inl, inr, Bool, true, false, not, ◌&&◌, ◌||◌, Option, none, some, List, [], ◌∷◌, ◌++◌,
  append_assoc, append-nil, arith, dec_lt, dec_le, ltb, leb, ◌==◌, if◌then◌else◌, within,
  Bool-cases, Option-cases, ==_iff, length, take, drop, length-append, length-take, length-drop,
  take-append-drop, All, Bytes, codes, text, equal, equal_iff, find, find_byte, substr,
}
use ccnet_utilities.Common.{ℤ}
use ccnet_utilities.Platform.Events.{Event, Handle}
use ccnet_utilities.Platform.Exceptions.{IoManagerException}
use ccnet_utilities.Platform.Scheduler.{Run, waits}

pub record WaitForEvent : Type 0 where
  pub fd : ℤ
  pub events : Event

unfoldable pub await_io_event : ℤ → Event → WaitForEvent
await_io_event socket_fd events = record { fd = socket_fd; events = events }

-- The coroutine `h` is suspended in the world `w`. What it does next depends on whether `add_waiter`
-- has thrown: then it goes on at once.
unfoldable pub await_suspend :
    {W : Type 0} → WaitForEvent → Handle → W → (Option IoManagerException → W → Run W) → Run W
await_suspend awaited h w next = waits awaited.fd awaited.events h w next
