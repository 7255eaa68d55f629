-- ===== src/Platform/Events/Wakes.antt =====
-- A coroutine that waits for a descriptor is handed out when epoll reports it.
use ccnet_utilities.Common.{
  ℕ, ◌+◌, ◌≤◌, ◌<◌, ◌≡◌, refl, ap, ◌∙◌, ◌≢◌, inl, inr, Option, none, some, List, [], ◌∷◌, arith,
  Option-cases, ℕ_discrete, ℤ, ◌⊎◌,
}
use ccnet_utilities.Common.{ℤ, pos, negsuc, ◌⊎◌}
use ccnet_utilities.Platform.Events.{
  Epoll, CtlResult, done, exists, failed, Event, Handle, Waiter, Table, Manager, lookup, insert,
  add_waiter, modify_waiter, take_event, take_events, adapt, push_handle, IoManagerException,
}
use ccnet_utilities.Platform.Events.Table.{
  count, count-append, lookup-remove, IsUnique, remove-IsUnique,
}

-- A descriptor is among those that are reported.
pub data Reported (fd : ℕ) : List ℕ → Type 0 where
  now : {fds : List ℕ} → Reported fd (fd ∷ fds)
  later : {j : ℕ} {fds : List ℕ} → Reported fd fds → Reported fd (j ∷ fds)

-- `add_waiter` enters one waiter, or leaves the table as it is.
abbrev pub Enters : ℤ → Table → Table → Type 0
Enters fd table table' =
    (table' ≡ table) ⊎ ((k : ℕ) × (w : Waiter) × (fd ≡ pos k) × (table' ≡ insert k w table))

module _ (os : Epoll) where
  count-push_handle_le :
      (h : Handle) (out : List Handle) (x : Handle) → count h out ≤ count h (push_handle os out x)
  unfolding count
  count-push_handle_le h out x = ground (arith, count-append h out (x ∷ []))

  count-take_event_le :
      (h : Handle) (fd : ℕ) (m : Manager os) (out : List Handle)
      → count h out ≤ count h (take_event os fd m out).0
  unfolding take_event
  count-take_event_le h fd m out = elim (Option-cases (lookup fd m.table)) [
    | inl e ↦ rw (e, take_event) (omega arith)
    | inr (w, e) ↦ rw (e, take_event) (count-push_handle_le h out w.handle)
  ]

  -- No handle that is out is taken back.
  count-take_events_le :
      (h : Handle) (fds : List ℕ) (m : Manager os) (out : List Handle)
      → count h out ≤ count h (take_events os fds m out).0
  unfolding take_events
  count-take_events_le h [] m out = omega arith
  count-take_events_le h (fd ∷ fds) m out = omega (
    arith,
    count-take_event_le h fd m out,
    count-take_events_le h fds (take_event os fd m out).1 (take_event os fd m out).0,
  )

  count-push_handle_self :
      (h : Handle) (out : List Handle) → h ≢ 0 → count h (push_handle os out h) ≡ count h out + 1
  unfolding count
  count-push_handle_self h out nonnull = ground (arith, count-append h out (h ∷ []))

  take_event_found :
      (fd : ℕ) (m : Manager os) (out : List Handle) (w : Waiter)
      → lookup fd m.table ≡ some w
      → w.handle ≢ 0
      → count w.handle (take_event os fd m out).0 ≡ count w.handle out + 1
  unfolding take_event
  take_event_found fd m out w e nonnull =
      rw (e, take_event) (count-push_handle_self w.handle out nonnull)

  -- The event of another descriptor leaves the entry, and keeps the table unique.
  lookup-take_event :
      (fd j : ℕ) (m : Manager os) (out : List Handle)
      → IsUnique m.table
      → j ≢ fd
      → (lookup fd (take_event os j m out).1.table ≡ lookup fd m.table)
        × IsUnique (take_event os j m out).1.table
  unfolding take_event
  lookup-take_event fd j m out u ne = elim (Option-cases (lookup j m.table)) [
    | inl e ↦ rw (e, take_event) (refl, u)
    | inr (w, e) ↦
        rw (e, take_event)
          (ground (arith, lookup-remove j fd m.table u), remove-IsUnique j m.table u)
  ]

  pub take_events-Reported :
      (fd : ℕ) (fds : List ℕ) (m : Manager os) (out : List Handle) (w : Waiter)
      → Reported fd fds
      → IsUnique m.table
      → lookup fd m.table ≡ some w
      → w.handle ≢ 0
      → count w.handle out < count w.handle (take_events os fds m out).0
  unfolding take_events
  take_events-Reported fd _ m out w (now {fds}) u e nonnull = omega (
    arith,
    take_event_found fd m out w e nonnull,
    count-take_events_le w.handle fds (take_event os fd m out).1 (take_event os fd m out).0,
  )
  take_events-Reported fd _ m out w (later {j} {fds} more) u e nonnull = elim (ℕ_discrete j fd) [
    | yes same ↦
        let found : lookup j m.table ≡ some w = ap (λ i. lookup i m.table) same ∙ e in
        omega (
          arith,
          take_event_found j m out w found nonnull,
          count-take_events_le w.handle fds (take_event os j m out).1 (take_event os j m out).0,
        )
    | no apart ↦
        let (kept, u') = lookup-take_event fd j m out u apart in
        omega (
          arith,
          count-take_event_le w.handle j m out,
          take_events-Reported fd fds (take_event os j m out).1 (take_event os j m out).0 w more u'
              (kept ∙ e) nonnull,
        )
  ]

  -- What `add_waiter` leaves where it does not throw.
  abbrev Registers : Option IoManagerException × Manager os → ℕ → Waiter → Table → Type 0
  Registers r fd w table = r.0 ≡ none → r.1.table ≡ insert fd w table

  modify_waiter-Registers :
      (fd : ℕ) (w : Waiter) (table : Table) (world : os.World)
      → Registers (modify_waiter os fd w table world) fd w table
  unfolding modify_waiter
  modify_waiter-Registers fd w table world = go (os.ctl_mod world fd w.events).0 refl
    where
      go :
          (res : CtlResult)
          → (os.ctl_mod world fd w.events).0 ≡ res
          → Registers (modify_waiter os fd w table world) fd w table
      go done e = rw (e, modify_waiter) (λ z. refl)
      go exists e = rw (e, modify_waiter) (λ z. absurd cc)
      go (failed code) e = rw (e, modify_waiter) (λ z. absurd cc)

  pub add_waiter-Registers :
      (fd : ℕ) (events : Event) (h : Handle) (m : Manager os)
      → Registers
          (add_waiter os (pos fd) events h m)
          fd
          (record { events = adapt events; handle = h })
          m.table
  unfolding add_waiter
  add_waiter-Registers fd events h m = go (os.ctl_add m.world fd (adapt events)).0 refl
    where
      go :
          (res : CtlResult)
          → (os.ctl_add m.world fd (adapt events)).0 ≡ res
          → Registers
              (add_waiter os (pos fd) events h m)
              fd
              (record { events = adapt events; handle = h })
              m.table
      go done e = rw (e, add_waiter) (λ z. refl)
      go exists e =
          rw (e, add_waiter)
            (modify_waiter-Registers fd (record { events = adapt events; handle = h }) m.table
              (os.ctl_add m.world fd (adapt events)).1)
      go (failed code) e = rw (e, add_waiter) (λ z. absurd cc)

  modify_waiter-Enters :
      (fd : ℕ) (w : Waiter) (table : Table) (world : os.World)
      → Enters (pos fd) table (modify_waiter os fd w table world).1.table
  unfolding modify_waiter
  modify_waiter-Enters fd w table world = go (os.ctl_mod world fd w.events).0 refl
    where
      go :
          (res : CtlResult)
          → (os.ctl_mod world fd w.events).0 ≡ res
          → Enters (pos fd) table (modify_waiter os fd w table world).1.table
      go done e = rw (e, modify_waiter) (inr (fd, w, refl, refl))
      go exists e = rw (e, modify_waiter) (inl refl)
      go (failed code) e = rw (e, modify_waiter) (inl refl)

  pub add_waiter-Enters :
      (fd : ℤ) (events : Event) (h : Handle) (m : Manager os)
      → Enters fd m.table (add_waiter os fd events h m).1.table
  unfolding add_waiter
  add_waiter-Enters (negsuc n) events h m = inl refl
  add_waiter-Enters (pos fd) events h m = go (os.ctl_add m.world fd (adapt events)).0 refl
    where
      go :
          (res : CtlResult)
          → (os.ctl_add m.world fd (adapt events)).0 ≡ res
          → Enters (pos fd) m.table (add_waiter os (pos fd) events h m).1.table
      go done e =
          rw (e, add_waiter) (inr (fd, record { events = adapt events; handle = h }, refl, refl))
      go exists e =
          rw (e, add_waiter)
            (modify_waiter-Enters fd (record { events = adapt events; handle = h }) m.table
              (os.ctl_add m.world fd (adapt events)).1)
      go (failed code) e = rw (e, add_waiter) (inl refl)
