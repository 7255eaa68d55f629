-- ===== src/Platform/Scheduler/Account.antt =====
-- Behind the inner loop, no coroutine is lost between the queues of the scheduler and the event
-- manager.
use ccnet_utilities.Common.{
  ℕ, ◌+◌, ◌≡◌, refl, ◌∙◌, ◌≢◌, inl, inr, List, [], ◌∷◌, ◌++◌, arith, leb, ◌==◌, Bool-cases,
}
use ccnet_utilities.Platform.Events.{Handle, Manager, poll}
use ccnet_utilities.Platform.Events.Table.{count, waiting, one_if, count-append}
use ccnet_utilities.Platform.Events.Count.{count-poll}
use ccnet_utilities.Platform.Scheduler.{
  Platform, Scheduler, SleepItem, wake, wake_sleepers, poll_io, rest_thread, rest_until, settle,
  caculate_time_out,
}

unfoldable pub sleeping : Handle → List SleepItem → ℕ
sleeping h [] = 0
sleeping h (x ∷ items) = one_if (x.coro_handle == h) + sleeping h items

module _ (platform : Platform) where
  -- How often a coroutine is ready, asleep or waiting.
  unfoldable pub places : Handle → Scheduler platform → ℕ
  places h s = count h s.ready_coroutines + (sleeping h s.sleepys + waiting h s.manager.table)

  count-wake :
      (h : Handle) (now : ℕ) (ready : List Handle) (items : List SleepItem)
      → count h (wake platform now ready items).0 + sleeping h (wake platform now ready items).1
        ≡ count h ready + sleeping h items
  unfolding wake sleeping
  count-wake h now ready [] = refl
  count-wake h now ready (x ∷ items) = elim (Bool-cases (leb x.sleep now)) [
    | inr asleep ↦ rw asleep refl
    | inl due ↦ rw due (
        omega (
          arith,
          count-wake h now (ready ++ x.coro_handle ∷ []) items,
          count-append h ready (x.coro_handle ∷ []),
          one h x.coro_handle,
        ))
  ]
    where
      one : (h x : Handle) → count h (x ∷ []) ≡ one_if (x == h) + 0
      one h x = unfold count in refl

  places-wake_sleepers :
      (h : Handle) (s : Scheduler platform) → places h (wake_sleepers platform s) ≡ places h s
  unfolding places wake_sleepers
  places-wake_sleepers h s =
      omega (arith, count-wake h (platform.now s.manager.world).0 s.ready_coroutines s.sleepys)

  places-poll_io :
      (h : Handle) (s : Scheduler platform) → h ≢ 0 → places h (poll_io platform s) ≡ places h s
  unfolding places poll_io
  places-poll_io h s nonnull =
      let m : Manager platform.epoll = record {
        world = (caculate_time_out platform s).1;
        table = s.manager.table;
      } in
      omega (
        arith,
        count-poll platform.epoll h (caculate_time_out platform s).0 m [] nonnull,
        count-append h s.ready_coroutines
            (poll platform.epoll (caculate_time_out platform s).0 m []).0,
        nothing h,
      )
    where
      nothing : (h : Handle) → count h [] ≡ 0
      nothing h = unfold count in refl

  places-rest_until :
      (h : Handle) (q : List Handle) (items : List SleepItem) (s : Scheduler platform)
      → places h (rest_until platform q items s) ≡ places h s
  unfolding places rest_until
  places-rest_until h (x ∷ rest) items s = refl
  places-rest_until h [] [] s = refl
  places-rest_until h [] (x ∷ items) s = refl

  -- The end of a round, behind its inner loop, whatever the clock and epoll say, neither loses nor
  -- doubles a coroutine: each handle that is not null is ready, asleep or waiting as often as before.
  -- Of the inner loop, in which `add_waiter` can replace a waiter, nothing is said.
  pub places-settle :
      (h : Handle) (s : Scheduler platform) → h ≢ 0 → places h (settle platform s) ≡ places h s
  unfolding settle rest_thread
  places-settle h s nonnull =
      places-rest_until h _ _ (poll_io platform (wake_sleepers platform s))
      ∙ places-poll_io h (wake_sleepers platform s) nonnull
      ∙ places-wake_sleepers h s
