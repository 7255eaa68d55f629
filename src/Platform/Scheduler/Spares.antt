-- ===== src/Platform/Scheduler/Spares.antt =====
-- Coroutines that leave the entry of a descriptor alone, and the inner loop over them.
use ccnet_utilities.Common.{
  ℕ, suc, ◌≡◌, sym, ap, ◌∙◌, subst, ◌≢◌, inl, inr, false, some, List, [], ◌∷◌, arith, ◌==◌,
  if◌then◌else◌, Bool-cases,
}
use ccnet_utilities.Common.{ℤ, pos}
use ccnet_utilities.Platform.Events.{Handle, Waiter, Table, lookup}
use ccnet_utilities.Platform.Events.Table.{lookup-insert, IsUnique, insert-IsUnique}
use ccnet_utilities.Platform.Events.Wakes.{Enters, add_waiter-Enters}
use ccnet_utilities.Platform.Scheduler.Fair.{drain_next, drain_end}
use ccnet_utilities.Platform.Scheduler.{
  Platform, Scheduler, Run, suspended, spawns, sleeps, waits, run_coroutine, resume_front, drain,
  internal_spawn, sleep_until, with_manager,
}

-- What a coroutine does up to its next suspension has no wait for `fd`.
abbrev pub Spares : {W : Type 0} → ℕ → Run W → Type 0
Spares fd (suspended w) = Unit {0}
Spares fd (spawns h r) = Spares fd r
Spares fd (sleeps h t r) = Spares fd r
Spares fd (waits fd' events h w k) = (fd' ≢ pos fd) × ((e : _) (v : _) → Spares fd (k e v))

-- The entry of `fd` is `w`, and each descriptor stands once.
abbrev pub Holds : ℕ → Waiter → Table → Type 0
Holds fd w table = (lookup fd table ≡ some w) × IsUnique table

Enters-Holds :
    (fd : ℕ) (w : Waiter) (fd' : ℤ) (table table' : Table)
    → fd' ≢ pos fd
    → Enters fd' table table'
    → Holds fd w table
    → Holds fd w table'
Enters-Holds fd w fd' table table' ne (inl same) h = subst (Holds fd w) (sym same) h
Enters-Holds fd w fd' table table' ne (inr (k, v, at, new)) (there, u) =
    let apart : (k == fd) ≡ false = elim (Bool-cases (k == fd)) [
      | inl e ↦ absurd (ne (at ∙ ap pos (ground arith)))
      | inr e ↦ e
    ] in
    subst (Holds fd w) (sym new) (
      lookup-insert k fd v table ∙ ap (λ b. if b then some v else lookup fd table) apart ∙ there,
      insert-IsUnique k v table u,
    )

module _ (platform : Platform) where
  run_coroutine-Holds :
      (fd : ℕ) (w : Waiter) (r : Run platform.epoll.World) (s : Scheduler platform)
      → Spares fd r
      → Holds fd w s.manager.table
      → Holds fd w (run_coroutine platform r s).manager.table
  unfolding run_coroutine
  run_coroutine-Holds fd w (suspended v) s spares h = h
  run_coroutine-Holds fd w (spawns x r) s spares h =
      run_coroutine-Holds fd w r (internal_spawn platform x s) spares h
  run_coroutine-Holds fd w (sleeps x t r) s spares h =
      run_coroutine-Holds fd w r (sleep_until platform x t s) spares h
  run_coroutine-Holds fd w (waits fd' events x v k) s (ne, spares) h =
      run_coroutine-Holds fd w (k _ _) (with_manager platform _ s) (spares _ _) (
        Enters-Holds fd w fd' s.manager.table _ ne
          (add_waiter-Enters platform.epoll fd' events x
            (record { world = v; table = s.manager.table }))
          h)

  -- The inner loop leads from one state to another, and no coroutine that it resumes waits for `fd`.
  pub data Drained (fd : ℕ) : Scheduler platform → Scheduler platform → Type 0 where
    nothing_ready : {s : Scheduler platform} → s.ready_coroutines ≡ [] → Drained fd s s
    resumes :
        {s s' : Scheduler platform} (h : Handle) (rest : List Handle)
        → s.ready_coroutines ≡ h ∷ rest
        → Spares fd (platform.resume s.manager.world h)
        → Drained fd (resume_front platform h rest s) s'
        → Drained fd s s'

  pub Drained-drain :
      (fd : ℕ) {s s' : Scheduler platform}
      → Drained fd s s'
      → (fuel : ℕ) × (drain platform fuel s ≡ some s')
  Drained-drain fd {s} (nothing_ready e) = (1, drain_end platform 0 s e)
  Drained-drain fd {s} (resumes h rest e spares more) =
      let (fuel, done) = Drained-drain fd more in
      (suc fuel, drain_next platform fuel h rest s e ∙ done)

  pub Drained-Holds :
      (fd : ℕ) (w : Waiter) {s s' : Scheduler platform}
      → Drained fd s s'
      → Holds fd w s.manager.table
      → Holds fd w s'.manager.table
  unfolding resume_front
  Drained-Holds fd w (nothing_ready e) h = h
  Drained-Holds fd w {s} (resumes x rest e spares more) h = Drained-Holds fd w more (
      run_coroutine-Holds fd w (platform.resume s.manager.world x)
        (record s { ready_coroutines = rest }) spares h)
