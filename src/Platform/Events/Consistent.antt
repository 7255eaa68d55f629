-- ===== src/Platform/Events/Consistent.antt =====
-- The table of waiters and the interest list of the kernel.
use ccnet_utilities.Common.{
  ℕ, ◌≡◌, refl, sym, ◌∙◌, subst, ◌≢◌, inl, inr, Option, none, some, List, [], ◌∷◌, arith, ◌==◌,
  if◌then◌else◌, Option-cases, Bytes, text,
}
use ccnet_utilities.Common.{ℤ, pos, negsuc}
use ccnet_utilities.Platform.Events.{
  Epoll, Interest, CtlResult, done, exists, failed, Event, Handle, Waiter, Table, Manager, lookup,
  remove, add_waiter, modify_waiter, remove_waiter, take_event, take_events, poll, adapt,
  registered, refused, eexist, max_events,
}
use ccnet_utilities.Platform.Events.Table.{
  IsUnique, lookup-insert, lookup-remove, insert-IsUnique, remove-IsUnique,
}

-- What epoll promises of its interest list, `watched`: a call that is done does what it says, one
-- that fails changes nothing, and neither does waiting.
pub record Keeps (os : Epoll) : Type 0 where
  pub watched : os.World → ℕ → Option Interest
  pub added :
      (w : os.World) (fd : ℕ) (i : Interest) (j : ℕ)
      → (os.ctl_add w fd i).0 ≡ done
      → watched (os.ctl_add w fd i).1 j ≡ (if fd == j then some i else watched w j)
  pub not_added :
      (w : os.World) (fd : ℕ) (i : Interest) (j : ℕ)
      → (os.ctl_add w fd i).0 ≢ done
      → watched (os.ctl_add w fd i).1 j ≡ watched w j
  pub modified :
      (w : os.World) (fd : ℕ) (i : Interest) (j : ℕ)
      → (os.ctl_mod w fd i).0 ≡ done
      → watched (os.ctl_mod w fd i).1 j ≡ (if fd == j then some i else watched w j)
  pub not_modified :
      (w : os.World) (fd : ℕ) (i : Interest) (j : ℕ)
      → (os.ctl_mod w fd i).0 ≢ done
      → watched (os.ctl_mod w fd i).1 j ≡ watched w j
  pub deleted :
      (w : os.World) (fd j : ℕ)
      → watched (os.ctl_del w fd) j ≡ (if fd == j then none else watched w j)
  pub waited : (w : os.World) (n : ℕ) (t : ℤ) (j : ℕ) → watched (os.wait w n t).1 j ≡ watched w j

abbrev pub interest : Option Waiter → Option Interest
interest none = none
interest (some w) = some w.events

module _ {os : Epoll} (keeps : Keeps os) where
  -- The kernel watches the descriptors of the table and no other, for what the table says.
  pub record IsConsistent (m : Manager os) : Type 0 where
    pub unique : IsUnique m.table
    pub agrees : (j : ℕ) → keeps.watched m.world j ≡ interest (lookup j m.table)

  abbrev pub Kept : os.World → os.World → Type 0
  Kept w w' = (j : ℕ) → keeps.watched w' j ≡ keeps.watched w j

  refused-IsConsistent :
      (msg : Bytes) (code : ℕ) (table : Table) (w w' : os.World)
      → IsConsistent (record { world = w; table = table })
      → Kept w w'
      → IsConsistent (refused os msg code table w').1
  refused-IsConsistent msg code table w w' c k = record {
    unique = c.unique;
    agrees = λ j. k j ∙ c.agrees j;
  }

  abbrev Set : os.World → os.World → ℕ → Interest → Type 0
  Set w w' fd i = (j : ℕ) → keeps.watched w' j ≡ (if fd == j then some i else keeps.watched w j)

  registered-IsConsistent :
      (fd : ℕ) (x : Waiter) (table : Table) (w w' : os.World)
      → IsConsistent (record { world = w; table = table })
      → Set w w' fd x.events
      → IsConsistent (registered os fd x table w').1
  registered-IsConsistent fd x table w w' c s = record {
    unique = insert-IsUnique fd x table c.unique;
    agrees = λ j. ground (arith, s j, c.agrees j, lookup-insert fd j x table);
  }

  removed-IsConsistent :
      (fd : ℕ) (m : Manager os)
      → IsConsistent m
      → IsConsistent (record { world = os.ctl_del m.world fd; table = remove fd m.table })
  removed-IsConsistent fd m c = record {
    unique = remove-IsUnique fd m.table c.unique;
    agrees = λ j.
        ground (arith, keeps.deleted m.world fd j, c.agrees j, lookup-remove fd j m.table c.unique);
  }

  modify_waiter-IsConsistent :
      (fd : ℕ) (x : Waiter) (table : Table) (w : os.World)
      → IsConsistent (record { world = w; table = table })
      → IsConsistent (modify_waiter os fd x table w).1
  unfolding modify_waiter
  modify_waiter-IsConsistent fd x table w c = go (os.ctl_mod w fd x.events).0 refl
    where
      go :
          (res : CtlResult)
          → (os.ctl_mod w fd x.events).0 ≡ res
          → IsConsistent (modify_waiter os fd x table w).1
      go done e =
          rw (e, modify_waiter)
            (registered-IsConsistent fd x table w (os.ctl_mod w fd x.events).1 c
              (λ j. keeps.modified w fd x.events j e))
      go exists e =
          rw (e, modify_waiter)
            (refused-IsConsistent (text "epoll_ctl MOD failed") eexist table w
              (os.ctl_mod w fd x.events).1 c (λ j. keeps.not_modified w fd x.events j (λ z. cc)))
      go (failed code) e =
          rw (e, modify_waiter)
            (refused-IsConsistent (text "epoll_ctl MOD failed") code table w
              (os.ctl_mod w fd x.events).1 c (λ j. keeps.not_modified w fd x.events j (λ z. cc)))

  add_waiter-IsConsistent :
      (fd : ℤ) (events : Event) (h : Handle) (m : Manager os)
      → IsConsistent m
      → IsConsistent (add_waiter os fd events h m).1
  unfolding add_waiter
  add_waiter-IsConsistent (negsuc n) events h m c = c
  add_waiter-IsConsistent (pos fd) events h m c = go (os.ctl_add m.world fd (adapt events)).0 refl
    where
      go :
          (res : CtlResult)
          → (os.ctl_add m.world fd (adapt events)).0 ≡ res
          → IsConsistent (add_waiter os (pos fd) events h m).1
      go done e =
          rw (e, add_waiter)
            (registered-IsConsistent fd (record { events = adapt events; handle = h }) m.table
              m.world (os.ctl_add m.world fd (adapt events)).1 c
              (λ j. keeps.added m.world fd (adapt events) j e))
      go exists e =
          rw (e, add_waiter)
            (modify_waiter-IsConsistent fd (record { events = adapt events; handle = h }) m.table
              (os.ctl_add m.world fd (adapt events)).1
              (record {
                unique = c.unique;
                agrees = λ j. keeps.not_added m.world fd (adapt events) j (λ z. cc) ∙ c.agrees j;
              }))
      go (failed code) e =
          rw (e, add_waiter)
            (refused-IsConsistent (text "epoll_ctl ADD failed") code m.table m.world
              (os.ctl_add m.world fd (adapt events)).1 c
              (λ j. keeps.not_added m.world fd (adapt events) j (λ z. cc)))

  remove_waiter-IsConsistent :
      (fd : ℕ) (m : Manager os) → IsConsistent m → IsConsistent (remove_waiter os fd m)
  unfolding remove_waiter
  remove_waiter-IsConsistent fd m c = elim (Option-cases (lookup fd m.table)) [
    | inl e ↦ rw (e, remove_waiter) c
    | inr (w, e) ↦ rw (e, remove_waiter) (removed-IsConsistent fd m c)
  ]

  take_event-IsConsistent :
      (fd : ℕ) (m : Manager os) (out : List Handle)
      → IsConsistent m
      → IsConsistent (take_event os fd m out).1
  unfolding take_event
  take_event-IsConsistent fd m out c = elim (Option-cases (lookup fd m.table)) [
    | inl e ↦ rw (e, take_event) c
    | inr (w, e) ↦ rw (e, take_event) (removed-IsConsistent fd m c)
  ]

  take_events-IsConsistent :
      (fds : List ℕ) (m : Manager os) (out : List Handle)
      → IsConsistent m
      → IsConsistent (take_events os fds m out).1
  unfolding take_events
  take_events-IsConsistent [] m out c = c
  take_events-IsConsistent (fd ∷ fds) m out c =
      take_events-IsConsistent fds (take_event os fd m out).1 (take_event os fd m out).0
        (take_event-IsConsistent fd m out c)

  poll-IsConsistent :
      (timeout_ms : ℤ) (m : Manager os) (out : List Handle)
      → IsConsistent m
      → IsConsistent (poll os timeout_ms m out).1
  unfolding poll
  poll-IsConsistent timeout_ms m out c =
      let world' = (os.wait m.world max_events timeout_ms).1 in
      let c' : IsConsistent (record m { world = world' }) = record {
        unique = c.unique;
        agrees = λ j. keeps.waited m.world max_events timeout_ms j ∙ c.agrees j;
      } in
      elim (Option-cases (os.wait m.world max_events timeout_ms).0) [
        | inl e ↦ rw (e, poll) c'
        | inr (fds, e) ↦
            rw (e, poll) (take_events-IsConsistent fds (record m { world = world' }) out c')
      ]

  -- One call of the manager, or anything else that leaves the interest list as it is.
  pub data Step (m m' : Manager os) : Type 0 where
    adds : (fd : ℤ) (events : Event) (h : Handle) → m' ≡ (add_waiter os fd events h m).1 → Step m m'
    removes : (fd : ℕ) → m' ≡ remove_waiter os fd m → Step m m'
    polls : (timeout_ms : ℤ) (out : List Handle) → m' ≡ (poll os timeout_ms m out).1 → Step m m'
    others : (w : os.World) → Kept m.world w → m' ≡ record m { world = w } → Step m m'

  pub data Reach (m : Manager os) : Manager os → Type 0 where
    here : Reach m m
    next : {m' m'' : Manager os} → Reach m m' → Step m' m'' → Reach m m''

  Step-IsConsistent : {m m' : Manager os} → Step m m' → IsConsistent m → IsConsistent m'
  Step-IsConsistent {m} (adds fd events h e) c =
      subst IsConsistent (sym e) (add_waiter-IsConsistent fd events h m c)
  Step-IsConsistent {m} (removes fd e) c =
      subst IsConsistent (sym e) (remove_waiter-IsConsistent fd m c)
  Step-IsConsistent {m} (polls timeout_ms out e) c =
      subst IsConsistent (sym e) (poll-IsConsistent timeout_ms m out c)
  Step-IsConsistent {m} (others w k e) c =
      subst IsConsistent (sym e) (record { unique = c.unique; agrees = λ j. k j ∙ c.agrees j })

  -- From a consistent manager every sequence of `add_waiter`, `remove_waiter` and `poll`, whatever
  -- their results, with other steps between them that leave the interest list as it is, leads to a
  -- consistent one: each descriptor stands once in the table, and the kernel watches just the
  -- descriptors of the table, for the events that the table says.
  pub Reach-IsConsistent : {m m' : Manager os} → Reach m m' → IsConsistent m → IsConsistent m'
  Reach-IsConsistent here c = c
  Reach-IsConsistent (next r st) c = Step-IsConsistent st (Reach-IsConsistent r c)
