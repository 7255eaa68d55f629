-- ===== src/Platform/Scheduler/Fair.antt =====
-- The ready queue: first come, first resumed.
use ccnet_utilities.Common.{
  ℕ, suc, ◌+◌, ◌≡◌, refl, sym, ap, ◌∙◌, subst, Option, some, List, [], ◌∷◌, ◌++◌, append_assoc,
  append-nil, arith, length,
}
use ccnet_utilities.Platform.Events.{Handle}
use ccnet_utilities.Platform.Scheduler.{
  Platform, Scheduler, Run, suspended, spawns, sleeps, waits, run_coroutine, resume_front, drain,
  internal_spawn, sleep_until, with_manager,
}

module _ (platform : Platform) where
  -- A coroutine that runs only adds to the end of the ready queue.
  run_coroutine-ready :
      (r : Run platform.epoll.World) (s : Scheduler platform)
      → (new : List Handle) × ((run_coroutine platform r s).ready_coroutines
          ≡ s.ready_coroutines ++ new)
  unfolding run_coroutine
  run_coroutine-ready (suspended w) s = ([], sym (append-nil s.ready_coroutines))
  run_coroutine-ready (spawns h r) s =
      let (new, e) = run_coroutine-ready r (internal_spawn platform h s) in
      (h ∷ new, e ∙ append_assoc s.ready_coroutines (h ∷ []) new)
  run_coroutine-ready (sleeps h t r) s = run_coroutine-ready r (sleep_until platform h t s)
  run_coroutine-ready (waits fd events h w k) s =
      run_coroutine-ready (k _ _) (with_manager platform _ s)

  resume_front-ready :
      (h : Handle) (rest : List Handle) (s : Scheduler platform)
      → (new : List Handle) × ((resume_front platform h rest s).ready_coroutines ≡ rest ++ new)
  unfolding resume_front
  resume_front-ready h rest s =
      run_coroutine-ready (platform.resume s.manager.world h) (record s { ready_coroutines = rest })

  pub drain_next :
      (fuel : ℕ) (h : Handle) (rest : List Handle) (s : Scheduler platform)
      → s.ready_coroutines ≡ h ∷ rest
      → drain platform (suc fuel) s ≡ drain platform fuel (resume_front platform h rest s)
  unfolding drain
  drain_next fuel h rest s e =
      subst
        (λ q.
          (elim q as (λ x. Option (Scheduler platform)) [
            | [] ↦ some s
            | x ∷ xs ↦ drain platform fuel (resume_front platform x xs s)
          ])
          ≡ drain platform fuel (resume_front platform h rest s))
        (sym e) refl

  pub drain_end :
      (fuel : ℕ) (s : Scheduler platform)
      → s.ready_coroutines ≡ []
      → drain platform (suc fuel) s ≡ some s
  unfolding drain
  drain_end fuel s e =
      subst
        (λ q.
          (elim q as (λ x. Option (Scheduler platform)) [
            | [] ↦ some s
            | x ∷ xs ↦ drain platform fuel (resume_front platform x xs s)
          ])
          ≡ some s)
        (sym e) refl

  -- A coroutine `h` that is ready behind the coroutines `ahead` is resumed when just those have been,
  -- whatever they do: then it is at the front, before those that were behind it and those that were
  -- added.
  pub drain-ready :
      (fuel : ℕ) (ahead behind : List Handle) (h : Handle) (s : Scheduler platform)
      → s.ready_coroutines ≡ ahead ++ h ∷ behind
      → (s' : Scheduler platform) × (new : List Handle) × (drain platform
            (length ahead + suc fuel)
            s
          ≡ drain platform fuel (resume_front platform h (behind ++ new) s'))
        × (s'.ready_coroutines ≡ h ∷ (behind ++ new))
  drain-ready fuel [] behind h s e =
      let e' : s.ready_coroutines ≡ h ∷ (behind ++ []) =
        e ∙ ap (λ x. h ∷ x) (sym (append-nil behind)) in
      (
        s,
        [],
        ap (λ n. drain platform n s) {x = 0 + suc fuel} {y = suc fuel} (omega arith)
            ∙ drain_next fuel h (behind ++ []) s e',
        e',
      )
  drain-ready fuel (a ∷ ahead) behind h s e =
      let rest : List Handle = ahead ++ h ∷ behind in
      let (added, e₁) = resume_front-ready a rest s in
      let (s', new, step, e') =
        drain-ready fuel ahead (behind ++ added) h (resume_front platform a rest s)
          (e₁ ∙ append_assoc ahead (h ∷ behind) added) in
      (
        s',
        added ++ new,
        ap (λ n. drain platform n s) {x = suc (length ahead) + suc fuel}
              {y = suc (length ahead + suc fuel)} (omega arith)
            ∙ drain_next (length ahead + suc fuel) a rest s e
            ∙ step
            ∙ ap (λ x. drain platform fuel (resume_front platform h x s'))
                (append_assoc behind added new),
        e' ∙ ap (λ x. h ∷ x) (append_assoc behind added new),
      )
