-- ===== src/Platform/Scheduler/Sleepers.antt =====
-- Sleepers wake when their time has come, and not before.
use ccnet_utilities.Common.{
  ℕ, ◌≤◌, ◌<◌, ◌≡◌, refl, sym, ap, ◌∙◌, subst, inl, inr, List, [], ◌∷◌, ◌++◌, append_assoc,
  append-nil, arith, ltb, leb, Bool-cases, All,
}
use ccnet_utilities.Common.{leb→le}
use ccnet_utilities.Platform.Events.{Handle}
use ccnet_utilities.Platform.Scheduler.{
  Platform, Scheduler, SleepItem, Run, suspended, spawns, sleeps, waits, emplace, run_coroutine,
  resume_front, wake, wake_sleepers, poll_io, rest_thread, rest_until, settle, internal_spawn,
  sleep_until, with_manager,
}

-- Each sleeper wakes no later than those behind it.
abbrev pub IsSorted : List SleepItem → Type 0
IsSorted [] = Unit {0}
IsSorted (x ∷ items) = All (λ y. x.sleep ≤ y.sleep) items × IsSorted items

All-emplace :
    (n : ℕ) (item : SleepItem) (items : List SleepItem)
    → n ≤ item.sleep
    → All (λ y. n ≤ y.sleep) items
    → All (λ y. n ≤ y.sleep) (emplace item items)
unfolding emplace
All-emplace n item [] h a = (h, tt)
All-emplace n item (x ∷ items) h a = ground (arith, All-emplace n item items h a.1)

All-le :
    (n m : ℕ) (items : List SleepItem)
    → n ≤ m
    → All (λ y. m ≤ y.sleep) items
    → All (λ y. n ≤ y.sleep) items
All-le n m [] h a = tt
All-le n m (x ∷ items) h a = (omega (arith, a.0), All-le n m items h a.1)

emplace-IsSorted :
    (item : SleepItem) (items : List SleepItem) → IsSorted items → IsSorted (emplace item items)
unfolding emplace
emplace-IsSorted item [] h = (tt, tt)
emplace-IsSorted item (x ∷ items) h = elim (Bool-cases (ltb item.sleep x.sleep)) [
  | inl lt ↦
      let le : item.sleep ≤ x.sleep = ground arith in
      rw lt ((le, All-le item.sleep x.sleep items le h.0), h)
  | inr ge ↦
      let le : x.sleep ≤ item.sleep = ground arith in
      rw ge (All-emplace x.sleep item items le h.0, emplace-IsSorted item items h.1)
]

module _ (platform : Platform) where
  abbrev pub handles : List SleepItem → List Handle
  handles [] = []
  handles (x ∷ items) = x.coro_handle ∷ handles items

  -- The sleepers that are due at `now` have moved to the end of the ready queue, in the order of
  -- their times; those that stay are not due.
  abbrev pub Woken : ℕ → List Handle → List SleepItem → List Handle × List SleepItem → Type 0
  Woken now ready items woken =
      (moved : List SleepItem) × (woken.0 ≡ ready ++ handles moved)
      × (items ≡ moved ++ woken.1)
      × All (λ x. x.sleep ≤ now) moved
      × All (λ x. now < x.sleep) woken.1

  All-lt :
      (n m : ℕ) (items : List SleepItem)
      → n < m
      → All (λ y. m ≤ y.sleep) items
      → All (λ y. n < y.sleep) items
  All-lt n m [] h a = tt
  All-lt n m (x ∷ items) h a = (omega (arith, a.0), All-lt n m items h a.1)

  wake-Woken :
      (now : ℕ) (ready : List Handle) (items : List SleepItem)
      → IsSorted items
      → Woken now ready items (wake platform now ready items)
  unfolding wake
  wake-Woken now ready [] h = ([], sym (append-nil ready), refl, tt, tt)
  wake-Woken now ready (x ∷ items) h = elim (Bool-cases (leb x.sleep now)) [
    | inl due ↦
        let (moved, e, all, early, late) = wake-Woken now (ready ++ x.coro_handle ∷ []) items h.1 in
        rw due (
          x ∷ moved,
          e ∙ append_assoc ready (x.coro_handle ∷ []) (handles moved),
          ap (λ y. x ∷ y) all,
          (leb→le x.sleep now due, early),
          late,
        )
    | inr asleep ↦
        let lt : now < x.sleep = ground arith in
        rw asleep ([], sym (append-nil ready), refl, tt, (lt, All-lt now x.sleep items lt h.0))
  ]

  run_coroutine-IsSorted :
      (r : Run platform.epoll.World) (s : Scheduler platform)
      → IsSorted s.sleepys
      → IsSorted (run_coroutine platform r s).sleepys
  unfolding run_coroutine
  run_coroutine-IsSorted (suspended w) s h = h
  run_coroutine-IsSorted (spawns k r) s h = run_coroutine-IsSorted r (internal_spawn platform k s) h
  run_coroutine-IsSorted (sleeps k t r) s h =
      run_coroutine-IsSorted r (sleep_until platform k t s)
        (emplace-IsSorted (record { sleep = t; coro_handle = k }) s.sleepys h)
  run_coroutine-IsSorted (waits fd events k w next) s h =
      run_coroutine-IsSorted (next _ _) (with_manager platform _ s) h

  IsSorted-behind : (xs ys : List SleepItem) → IsSorted (xs ++ ys) → IsSorted ys
  IsSorted-behind [] ys h = h
  IsSorted-behind (x ∷ xs) ys h = IsSorted-behind xs ys h.1

  rest_until-sleepys :
      (q : List Handle) (items : List SleepItem) (s : Scheduler platform)
      → (rest_until platform q items s).sleepys ≡ s.sleepys
  unfolding rest_until
  rest_until-sleepys (h ∷ rest) items s = refl
  rest_until-sleepys [] [] s = refl
  rest_until-sleepys [] (x ∷ items) s = refl

  settle_sleepys :
      (s : Scheduler platform)
      → (settle platform s).sleepys
        ≡ (wake platform (platform.now s.manager.world).0 s.ready_coroutines s.sleepys).1
  unfolding settle rest_thread poll_io wake_sleepers
  settle_sleepys s =
      rest_until-sleepys (poll_io platform (wake_sleepers platform s)).ready_coroutines
        (poll_io platform (wake_sleepers platform s)).sleepys
        (poll_io platform (wake_sleepers platform s))

  settle-IsSorted :
      (s : Scheduler platform) → IsSorted s.sleepys → IsSorted (settle platform s).sleepys
  settle-IsSorted s h =
      let (moved, e, all, early, late) =
        wake-Woken (platform.now s.manager.world).0 s.ready_coroutines s.sleepys h in
      subst IsSorted (sym (settle_sleepys s)) (IsSorted-behind moved _ (subst IsSorted all h))

  -- One coroutine is resumed, or the round ends.
  pub data Step (s s' : Scheduler platform) : Type 0 where
    resumes :
        (h : Handle) (rest : List Handle)
        → s.ready_coroutines ≡ h ∷ rest
        → s' ≡ resume_front platform h rest s
        → Step s s'
    settles : s' ≡ settle platform s → Step s s'

  pub data Reach (s : Scheduler platform) : Scheduler platform → Type 0 where
    here : Reach s s
    next : {s' s'' : Scheduler platform} → Reach s s' → Step s' s'' → Reach s s''

  Reach-IsSorted :
      {s s' : Scheduler platform} → Reach s s' → IsSorted s.sleepys → IsSorted s'.sleepys
  unfolding resume_front
  Reach-IsSorted here h = h
  Reach-IsSorted (next {s'} r (resumes k rest q e)) h =
      subst (λ t. IsSorted t.sleepys) (sym e)
        (run_coroutine-IsSorted (platform.resume s'.manager.world k)
          (record s' { ready_coroutines = rest }) (Reach-IsSorted r h))
  Reach-IsSorted (next {s'} r (settles e)) h =
      subst (λ t. IsSorted t.sleepys) (sym e) (settle-IsSorted s' (Reach-IsSorted r h))

  -- In every state that the loop reaches from one whose sleepers are in order, whatever the
  -- coroutines do, the sleepers that are due at a time are just those that `wake` moves: in the
  -- order of their times to the end of the ready queue, where those before them stay as they are.
  pub wake-Reach :
      {s s' : Scheduler platform} (now : ℕ)
      → Reach s s'
      → IsSorted s.sleepys
      → Woken now s'.ready_coroutines s'.sleepys (wake platform now s'.ready_coroutines s'.sleepys)
  wake-Reach {s} {s'} now r h = wake-Woken now s'.ready_coroutines s'.sleepys (Reach-IsSorted r h)
