-- ===== src/Platform/Scheduler/Wakes.antt =====
-- A coroutine that waits for a descriptor is ready behind the round in which epoll reports it.
use ccnet_utilities.Common.{
  ℕ, ◌≤◌, ◌<◌, ◌≡◌, refl, sym, ap, ◌∙◌, subst, ◌≢◌, inl, inr, Option, none, some, List, [], ◌∷◌,
  ◌++◌, arith, leb, Bool-cases,
}
use ccnet_utilities.Common.{pos}
use ccnet_utilities.Platform.Events.{
  Event, Handle, Waiter, Manager, lookup, insert, add_waiter, poll, adapt, max_events,
}
use ccnet_utilities.Platform.Events.Table.{
  count, count-append, lookup-insert, IsUnique, insert-IsUnique,
}
use ccnet_utilities.Platform.Scheduler.Spares.{Holds}
use ccnet_utilities.Platform.Events.Wakes.{Reported, add_waiter-Registers, take_events-Reported}
use ccnet_utilities.Platform.Scheduler.{
  Platform, Scheduler, SleepItem, suspended, waits, run_coroutine, wake, wake_sleepers, poll_io,
  rest_thread, rest_until, settle, caculate_time_out,
}

module _ (platform : Platform) where
  count-wake_le :
      (h : Handle) (now : ℕ) (ready : List Handle) (items : List SleepItem)
      → count h ready ≤ count h (wake platform now ready items).0
  unfolding wake
  count-wake_le h now ready [] = omega arith
  count-wake_le h now ready (x ∷ items) = elim (Bool-cases (leb x.sleep now)) [
    | inr asleep ↦ rw asleep (omega arith)
    | inl due ↦ rw due (
        omega (
          arith,
          count-wake_le h now (ready ++ x.coro_handle ∷ []) items,
          count-append h ready (x.coro_handle ∷ []),
        ))
  ]

  rest_until-ready :
      (q : List Handle) (items : List SleepItem) (s : Scheduler platform)
      → (rest_until platform q items s).ready_coroutines ≡ s.ready_coroutines
  unfolding rest_until
  rest_until-ready (x ∷ rest) items s = refl
  rest_until-ready [] [] s = refl
  rest_until-ready [] (x ∷ items) s = refl

  -- What `epoll_wait` gives in the round.
  abbrev pub reports : Scheduler platform → Option (List ℕ)
  reports s =
      let (timeout_ms, w) = caculate_time_out platform (wake_sleepers platform s) in
      (platform.epoll.wait w max_events timeout_ms).0

  settle-ready :
      (s : Scheduler platform)
      → (settle platform s).ready_coroutines
        ≡ (poll_io platform (wake_sleepers platform s)).ready_coroutines
  unfolding settle rest_thread
  settle-ready s =
      let s₁ : Scheduler platform = poll_io platform (wake_sleepers platform s) in
      rest_until-ready s₁.ready_coroutines s₁.sleepys s₁

  pub settle-Reported :
      (fd : ℕ) (w : Waiter) (s : Scheduler platform) (fds : List ℕ)
      → w.handle ≢ 0
      → IsUnique s.manager.table
      → lookup fd s.manager.table ≡ some w
      → reports s ≡ some fds
      → Reported fd fds
      → count w.handle s.ready_coroutines < count w.handle (settle platform s).ready_coroutines
  unfolding poll_io wake_sleepers poll count
  settle-Reported fd w s fds nonnull u there ready reported =
      let s₁ : Scheduler platform = wake_sleepers platform s in
      let out : List Handle =
        (poll platform.epoll (caculate_time_out platform s₁).0
          (record { world = (caculate_time_out platform s₁).1; table = s₁.manager.table }) []).0 in
      let handed : 0 < count w.handle out =
        rw (ready, poll)
          (take_events-Reported platform.epoll fd fds
            (record {
              world =
                  (platform.epoll.wait (caculate_time_out platform s₁).1 max_events
                    (caculate_time_out platform s₁).0).1;
              table = s.manager.table;
            })
            [] w reported u there nonnull) in
      omega (
        arith,
        ap (count w.handle) (settle-ready s),
        handed,
        count-append w.handle s₁.ready_coroutines out,
        count-wake_le w.handle (platform.now s.manager.world).0 s.ready_coroutines s.sleepys,
      )

  -- The entry that a coroutine makes by `add_waiter`, where that does not throw.
  pub waits-Holds :
      (fd : ℕ) (events : Event) (h : Handle) (w : platform.epoll.World) (s : Scheduler platform)
      → IsUnique s.manager.table
      → (add_waiter platform.epoll
          (pos fd)
          events
          h
          (record { world = w; table = s.manager.table })).0
        ≡ none
      → Holds fd
          (record { events = adapt events; handle = h })
          (run_coroutine platform (waits (pos fd) events h w (λ e v. suspended v)) s).manager.table
  unfolding run_coroutine
  waits-Holds fd events h w s u accepted =
      let waiter : Waiter = record { events = adapt events; handle = h } in
      let m : Manager platform.epoll = record { world = w; table = s.manager.table } in
      let table : (add_waiter platform.epoll (pos fd) events h m).1.table
          ≡ insert fd waiter s.manager.table =
        add_waiter-Registers platform.epoll fd events h m accepted in
      (
        ap (lookup fd) table ∙ ground (arith, lookup-insert fd fd waiter s.manager.table),
        subst IsUnique (sym table) (insert-IsUnique fd waiter s.manager.table u),
      )
