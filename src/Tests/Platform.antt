-- ===== src/Tests/Platform.antt =====
-- A small platform, and the theorems on it: coroutine 1 starts coroutine 2, coroutine 2 sleeps, and
-- any other waits for descriptor 3.
use ccnet_utilities.Platform.Scheduler.Spares.{Drained, resumes, nothing_ready}
use ccnet_utilities.Sockets.Await.{await_io_event, await_suspend}
use ccnet_utilities.Common.{
  ℕ, zero, suc, ◌+◌, ◌-◌, ◌*◌, ◌≤◌, ◌<◌, ◌≡◌, refl, ◌≢◌, Option, none, some, List, [], ◌∷◌, ◌++◌,
  arith, ◌==◌, if◌then◌else◌,
}
use ccnet_utilities.Common.{pos, negsuc}
use ccnet_utilities.Platform.Events.{
  Epoll, Interest, CtlResult, done, exists, Manager, Handle, monitor_read, monitor_write,
  add_waiter, poll, lookup, insert,
}
use ccnet_utilities.Platform.Events.Table.{count, waiting}
use ccnet_utilities.Platform.Events.Consistent.{
  Keeps, IsConsistent, here, next, adds, polls, Reach-IsConsistent,
}
use ccnet_utilities.Platform.Events.Count.{count-poll, waiting-add_waiter, Counted}
use ccnet_utilities.Platform.Events.Wakes.{now}
use ccnet_utilities.Sockets.Await.Woken.{awaiting, settle-await_suspend}
use ccnet_utilities.Platform.Scheduler.{
  Platform, Scheduler, Run, suspended, spawns, sleeps, waits, drain, resume_front, run_coroutine,
  wake, settle, caculate_time_out, nanos_per_milli,
}
use ccnet_utilities.Platform.Scheduler.Fair.{drain-ready}
use ccnet_utilities.Platform.Scheduler.Sleepers.{Woken, wake-Reach}
use ccnet_utilities.Platform.Scheduler.Sleepers
use ccnet_utilities.Platform.Scheduler.Account.{places, places-settle}
use ccnet_utilities.Platform.Scheduler.TimeOut.{caculate_time_out-pos, caculate_time_out-negsuc}

-- The clock, and what the kernel watches.
abbrev Watched : Type 0
Watched = ℕ → Option Interest

abbrev Kernel : Type 0
Kernel = ℕ × Watched

abbrev watch : ℕ → Option Interest → Watched → Watched
watch fd i w = λ j. if fd == j then i else w j

abbrev ctl_add : ℕ → Interest → Option Interest → Kernel → CtlResult × Kernel
ctl_add fd i none w = (done, (w.0, watch fd (some i) w.1))
ctl_add fd i (some old) w = (exists, w)

abbrev small_epoll : Epoll
small_epoll = record {
  World = Kernel;
  ctl_add = λ w fd i. ctl_add fd i (w.1 fd) w;
  ctl_mod = λ w fd i. (done, (w.0, watch fd (some i) w.1));
  ctl_del = λ w fd. (w.0, watch fd none w.1);
  wait = λ w n t. (some (3 ∷ 9 ∷ []), w);
}

added :
    (w : Kernel) (fd : ℕ) (i : Interest) (j : ℕ) (old : Option Interest)
    → (ctl_add fd i old w).0 ≡ done
    → (ctl_add fd i old w).1.1 j ≡ (if fd == j then some i else w.1 j)
added w fd i j none e = refl
added w fd i j (some x) e = cc

not_added :
    (w : Kernel) (fd : ℕ) (i : Interest) (j : ℕ) (old : Option Interest)
    → (ctl_add fd i old w).0 ≢ done
    → (ctl_add fd i old w).1.1 j ≡ w.1 j
not_added w fd i j none ne = absurd (ne refl)
not_added w fd i j (some x) ne = refl

abbrev small_keeps : Keeps small_epoll
small_keeps = record {
  watched = λ w. w.1;
  added = λ w fd i j e. added w fd i j (w.1 fd) e;
  not_added = λ w fd i j ne. not_added w fd i j (w.1 fd) ne;
  modified = λ w fd i j e. refl;
  not_modified = λ w fd i j ne. absurd (ne refl);
  deleted = λ w fd j. refl;
  waited = λ w n t j. refl;
}

abbrev fresh : Manager small_epoll
fresh = record { world = (0, λ j. none); table = [] }

fresh-IsConsistent : IsConsistent small_keeps fresh
unfolding lookup
fresh-IsConsistent = record { unique = tt; agrees = λ j. refl }

abbrev busy : Manager small_epoll
busy = (add_waiter small_epoll (pos 3) monitor_read 7 fresh).1

Reach-IsConsistent_example : IsConsistent small_keeps (poll small_epoll (pos 0) busy []).1
Reach-IsConsistent_example =
    Reach-IsConsistent small_keeps
      (next (next here (adds (pos 3) monitor_read 7 refl)) (polls (pos 0) [] refl))
      fresh-IsConsistent

busy-waiting : waiting 7 busy.table ≡ 1
unfolding add_waiter waiting insert
busy-waiting = refl

count-poll_example :
    count 7 (poll small_epoll (pos 0) busy []).0
      + waiting 7 (poll small_epoll (pos 0) busy []).1.table
    ≡ count 7 [] + waiting 7 busy.table
count-poll_example = count-poll small_epoll 7 (pos 0) busy [] (omega arith)

waiting-add_waiter_example :
    Counted small_epoll (add_waiter small_epoll (pos 3) monitor_write 8 busy) 7 3 8 busy.table
waiting-add_waiter_example = waiting-add_waiter small_epoll 7 3 monitor_write 8 busy

-- 1 is `suc zero`, 2 is `suc (suc zero)`.
abbrev small_resume : Kernel → Handle → Run Kernel
small_resume w zero = suspended w
small_resume w (suc zero) = spawns 2 (suspended w)
small_resume w (suc (suc zero)) = sleeps 2 5000000 (suspended w)
small_resume w (suc (suc (suc h))) = waits (pos 3) monitor_read (h + 3) w (λ e v. suspended v)

abbrev small : Platform
small = record {
  epoll = small_epoll;
  now = λ w. (w.0, w);
  thread_sleep_until = λ w t. (t, w.1);
  resume = small_resume;
}

abbrev started : Scheduler small
started = record { ready_coroutines = 7 ∷ 1 ∷ []; sleepys = []; manager = fresh }

drain-ready_example :
    (s' : Scheduler small) × (new : List Handle) × (drain small 11 started
      ≡ drain small 9 (resume_front small 1 ([] ++ new) s'))
    × (s'.ready_coroutines ≡ 1 ∷ ([] ++ new))
drain-ready_example = drain-ready small 9 (7 ∷ []) [] 1 started refl

abbrev sleepy : Scheduler small
sleepy = record { ready_coroutines = 2 ∷ 7 ∷ []; sleepys = []; manager = fresh }

abbrev asleep : Scheduler small
asleep = resume_front small 2 (7 ∷ []) sleepy

wake-Reach_example :
    Woken small 6000000 asleep.ready_coroutines asleep.sleepys
      (wake small 6000000 asleep.ready_coroutines asleep.sleepys)
wake-Reach_example =
    wake-Reach small 6000000 (Sleepers.next Sleepers.here (Sleepers.resumes 2 (7 ∷ []) refl refl))
      tt

places-settle_example : places small 7 (settle small asleep) ≡ places small 7 asleep
places-settle_example = places-settle small 7 asleep (omega arith)

abbrev sleeper : ℕ → Scheduler small
sleeper t = record {
  ready_coroutines = [];
  sleepys = record { sleep = t; coro_handle = 2 } ∷ [];
  manager = fresh;
}

caculate_time_out-pos_example :
    (k : ℕ) × ((caculate_time_out small (sleeper 5500000)).0 ≡ pos k)
    × (k * nanos_per_milli ≤ 5500000 - 0)
    × (5500000 - 0 < (k + 1) * nanos_per_milli)
caculate_time_out-pos_example =
    caculate_time_out-pos small (sleeper 5500000) (record { sleep = 5500000; coro_handle = 2 }) []
      refl refl (omega arith)

-- Thirty days.
caculate_time_out-negsuc_example :
    (k : ℕ) × ((caculate_time_out small (sleeper 2592000000000000)).0 ≡ negsuc k)
caculate_time_out-negsuc_example =
    caculate_time_out-negsuc small (sleeper 2592000000000000)
      (record { sleep = 2592000000000000; coro_handle = 2 }) [] refl refl (omega arith)
      (omega arith)

-- Coroutine 7 waits for descriptor 3, which `epoll_wait` reports before descriptor 9. Coroutine 2 is
-- ready behind it, and goes to sleep.
abbrev before_7 : Scheduler small
before_7 = record { ready_coroutines = 2 ∷ []; sleepys = []; manager = fresh }

abbrev behind_7 : Scheduler small
behind_7 = awaiting small (pos 3) monitor_read 7 (0, λ j. none) before_7

abbrev all_resumed : Scheduler small
all_resumed = resume_front small 2 [] behind_7

all_resumed-Drained : Drained small 3 behind_7 all_resumed
unfolding resume_front run_coroutine await_suspend await_io_event
all_resumed-Drained = resumes 2 [] refl tt (nothing_ready refl)

settle-await_suspend_example :
    (fuel : ℕ) × (drain small fuel behind_7 ≡ some all_resumed)
    × (0 < count 7 (settle small all_resumed).ready_coroutines)
unfolding add_waiter
settle-await_suspend_example =
    settle-await_suspend small 3 monitor_read 7 (0, λ j. none) before_7 all_resumed (3 ∷ 9 ∷ [])
      (omega arith) tt refl all_resumed-Drained refl now
