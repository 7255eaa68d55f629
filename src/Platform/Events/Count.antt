-- ===== src/Platform/Events/Count.antt =====
-- What becomes of the handles that wait.
use ccnet_utilities.Common.{
  ℕ, ◌+◌, ◌≡◌, refl, ◌∙◌, ◌≢◌, ◌⊎◌, inl, inr, none, List, [], ◌∷◌, arith, ◌==◌, Option-cases, Bytes,
  text,
}
use ccnet_utilities.Common.{ℤ, pos}
use ccnet_utilities.Platform.Events.{
  Epoll, CtlResult, done, exists, failed, Event, Handle, Waiter, Table, Manager, lookup, add_waiter,
  modify_waiter, take_event, take_events, poll, adapt, push_handle, Ended, max_events, eexist,
  refused, registered,
}
use ccnet_utilities.Platform.Events.Table.{
  count, waiting, held, one_if, count-append, waiting-remove, waiting-insert,
}

module _ (os : Epoll) where
  count-push_handle :
      (h : Handle) (out : List Handle) (x : Handle)
      → h ≢ 0
      → count h (push_handle os out x) ≡ count h out + one_if (x == h)
  unfolding count
  count-push_handle h out x nonnull = ground (arith, count-append h out (x ∷ []))

  count-take_event :
      (h : Handle) (fd : ℕ) (m : Manager os) (out : List Handle)
      → h ≢ 0
      → count h (take_event os fd m out).0 + waiting h (take_event os fd m out).1.table
        ≡ count h out + waiting h m.table
  unfolding take_event
  count-take_event h fd m out nonnull = elim (Option-cases (lookup fd m.table)) [
    | inl e ↦ rw (e, take_event) refl
    | inr (w, e) ↦
        let gone : held h (lookup fd m.table) ≡ one_if (w.handle == h) = rw e refl in
        rw (e, take_event)
          (omega
            (arith, count-push_handle h out w.handle nonnull, waiting-remove h fd m.table, gone))
  ]

  count-take_events :
      (h : Handle) (fds : List ℕ) (m : Manager os) (out : List Handle)
      → h ≢ 0
      → count h (take_events os fds m out).0 + waiting h (take_events os fds m out).1.table
        ≡ count h out + waiting h m.table
  unfolding take_events
  count-take_events h [] m out nonnull = refl
  count-take_events h (fd ∷ fds) m out nonnull =
      count-take_events h fds (take_event os fd m out).1 (take_event os fd m out).0 nonnull
      ∙ count-take_event h fd m out nonnull

  -- A poll, whatever epoll reports, neither loses nor doubles a coroutine: what it takes from the
  -- table it adds to `out_handles`. The handle is not null.
  pub count-poll :
      (h : Handle) (timeout_ms : ℤ) (m : Manager os) (out : List Handle)
      → h ≢ 0
      → count h (poll os timeout_ms m out).0 + waiting h (poll os timeout_ms m out).1.table
        ≡ count h out + waiting h m.table
  unfolding poll
  count-poll h timeout_ms m out nonnull =
      elim (Option-cases (os.wait m.world max_events timeout_ms).0) [
        | inl e ↦ rw (e, poll) refl
        | inr (fds, e) ↦
            rw (e, poll)
              (count-take_events h fds
                (record m { world = (os.wait m.world max_events timeout_ms).1 }) out nonnull)
      ]

  -- The table after a call that registers or throws.
  abbrev pub Counted : Ended os → Handle → ℕ → Handle → Table → Type 0
  Counted r k fd h table =
      ((r.0 ≡ none)
        × (waiting k r.1.table + held k (lookup fd table) ≡ waiting k table + one_if (h == k)))
      ⊎ ((r.0 ≢ none) × (r.1.table ≡ table))

  refused-Counted :
      (msg : Bytes) (code : ℕ) (w : os.World) (k : Handle) (fd : ℕ) (h : Handle) (table : Table)
      → Counted (refused os msg code table w) k fd h table
  refused-Counted msg code w k fd h table = inr (λ e. cc, refl)

  registered-Counted :
      (w : os.World) (k : Handle) (fd : ℕ) (x : Waiter) (table : Table)
      → Counted (registered os fd x table w) k fd x.handle table
  registered-Counted w k fd x table = inl (refl, waiting-insert k fd x table)

  modify_waiter-Counted :
      (w : os.World) (k : Handle) (fd : ℕ) (x : Waiter) (table : Table)
      → Counted (modify_waiter os fd x table w) k fd x.handle table
  unfolding modify_waiter
  modify_waiter-Counted w k fd x table = go (os.ctl_mod w fd x.events).0 refl
    where
      go :
          (res : CtlResult)
          → (os.ctl_mod w fd x.events).0 ≡ res
          → Counted (modify_waiter os fd x table w) k fd x.handle table
      go done e =
          rw (e, modify_waiter) (registered-Counted (os.ctl_mod w fd x.events).1 k fd x table)
      go exists e =
          rw (e, modify_waiter)
            (refused-Counted (text "epoll_ctl MOD failed") eexist (os.ctl_mod w fd x.events).1 k fd
              x.handle table)
      go (failed code) e =
          rw (e, modify_waiter)
            (refused-Counted (text "epoll_ctl MOD failed") code (os.ctl_mod w fd x.events).1 k fd
              x.handle table)

  -- `add_waiter` on a descriptor either throws and leaves the table as it is, or registers the new
  -- handle; a handle that waited for the same descriptor then waits no more, and nothing else
  -- changes.
  pub waiting-add_waiter :
      (k : Handle) (fd : ℕ) (events : Event) (h : Handle) (m : Manager os)
      → Counted (add_waiter os (pos fd) events h m) k fd h m.table
  unfolding add_waiter
  waiting-add_waiter k fd events h m = go (os.ctl_add m.world fd (adapt events)).0 refl
    where
      go :
          (res : CtlResult)
          → (os.ctl_add m.world fd (adapt events)).0 ≡ res
          → Counted (add_waiter os (pos fd) events h m) k fd h m.table
      go done e =
          rw (e, add_waiter)
            (registered-Counted (os.ctl_add m.world fd (adapt events)).1 k fd
              (record { events = adapt events; handle = h }) m.table)
      go exists e =
          rw (e, add_waiter)
            (modify_waiter-Counted (os.ctl_add m.world fd (adapt events)).1 k fd
              (record { events = adapt events; handle = h }) m.table)
      go (failed code) e =
          rw (e, add_waiter)
            (refused-Counted (text "epoll_ctl ADD failed") code
              (os.ctl_add m.world fd (adapt events)).1 k fd h m.table)
