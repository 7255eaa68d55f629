-- ===== src/Platform/Scheduler/TimeOut.antt =====
-- The timeout that the scheduler gives to epoll.
use ccnet_utilities.Common.{
  ℕ, ◌+◌, ◌-◌, ◌*◌, ◌/◌, ◌%◌, ◌^◌, ◌≤◌, ◌<◌, ◌≡◌, refl, ap, ◌∙◌, true, false, List, [], ◌∷◌, arith,
  ltb,
}
use ccnet_utilities.Common.{pos, negsuc}
use ccnet_utilities.Platform.Scheduler.{
  Platform, Scheduler, SleepItem, caculate_time_out, time_left, nanos_per_milli, time_out_of,
}

module _ (platform : Platform) where
  time_left_int32 :
      (next now : ℕ)
      → next < now + nanos_per_milli * 2 ^ 31
      → time_left platform next now ≡ pos ((next - now) / nanos_per_milli)
  unfolding time_left
  time_left_int32 next now h =
      let small : (next - now) / nanos_per_milli < 2 ^ 31 = omega arith in
      let same : ((next - now) / nanos_per_milli) % 2 ^ 32 ≡ (next - now) / nanos_per_milli =
        omega arith in
      let low : ltb ((next - now) / nanos_per_milli) (2 ^ 31) ≡ true = ground arith in
      rw (same, low) refl

  time_left_wraps :
      (next now : ℕ)
      → now + nanos_per_milli * 2 ^ 31 ≤ next
      → next < now + nanos_per_milli * 2 ^ 32
      → time_left platform next now ≡ negsuc (2 ^ 32 - (next - now) / nanos_per_milli - 1)
  unfolding time_left
  time_left_wraps next now h lt =
      let same : ((next - now) / nanos_per_milli) % 2 ^ 32 ≡ (next - now) / nanos_per_milli =
        omega arith in
      let high : ltb ((next - now) / nanos_per_milli) (2 ^ 31) ≡ false = ground arith in
      rw (same, high) refl

  time_out_asleep :
      (s : Scheduler platform) (x : SleepItem) (items : List SleepItem)
      → s.ready_coroutines ≡ []
      → s.sleepys ≡ x ∷ items
      → (caculate_time_out platform s).0
        ≡ time_left platform x.sleep (platform.now s.manager.world).0
  unfolding caculate_time_out time_out_of
  time_out_asleep s x items e f =
      ap (λ q. (time_out_of platform q s.sleepys s.manager.world).0) e
      ∙ ap (λ q. (time_out_of platform [] q s.manager.world).0) f

  -- With nothing ready and the next sleeper less than 2 ^ 31 milliseconds away, the timeout is the
  -- time until then in whole milliseconds, rounded down: epoll does not sleep beyond it, nor a
  -- millisecond too short.
  pub caculate_time_out-pos :
      (s : Scheduler platform) (x : SleepItem) (items : List SleepItem)
      → s.ready_coroutines ≡ []
      → s.sleepys ≡ x ∷ items
      → x.sleep < (platform.now s.manager.world).0 + nanos_per_milli * 2 ^ 31
      → (k : ℕ) × ((caculate_time_out platform s).0 ≡ pos k)
        × (k * nanos_per_milli ≤ x.sleep - (platform.now s.manager.world).0)
        × (x.sleep - (platform.now s.manager.world).0 < (k + 1) * nanos_per_milli)
  caculate_time_out-pos s x items e f h =
      let now : ℕ = (platform.now s.manager.world).0 in
      (
        (x.sleep - now) / nanos_per_milli,
        time_out_asleep s x items e f ∙ time_left_int32 x.sleep now h,
        omega arith,
        omega arith,
      )

  -- With nothing ready and the next sleeper 2 ^ 31 to 2 ^ 32 milliseconds away, the timeout is
  -- negative, with which epoll waits without end.
  pub caculate_time_out-negsuc :
      (s : Scheduler platform) (x : SleepItem) (items : List SleepItem)
      → s.ready_coroutines ≡ []
      → s.sleepys ≡ x ∷ items
      → (platform.now s.manager.world).0 + nanos_per_milli * 2 ^ 31 ≤ x.sleep
      → x.sleep < (platform.now s.manager.world).0 + nanos_per_milli * 2 ^ 32
      → (k : ℕ) × ((caculate_time_out platform s).0 ≡ negsuc k)
  caculate_time_out-negsuc s x items e f h lt =
      let now : ℕ = (platform.now s.manager.world).0 in
      (
        2 ^ 32 - (x.sleep - now) / nanos_per_milli - 1,
        time_out_asleep s x items e f ∙ time_left_wraps x.sleep now h lt,
      )
