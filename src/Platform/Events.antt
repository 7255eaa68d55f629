-- ===== src/Platform/Events.antt =====
-- platform/coro_platform/IOEventMonitor.h and IOEventMonitor.cpp: `IOEventManager`.
pub mod Table
pub mod Consistent
pub mod Count
pub mod Wakes
pub mod Lifetime
use ccnet_utilities.Common.{
  ℕ, Bool, true, false, Option, none, some, List, [], ◌∷◌, ◌++◌, ◌==◌, if◌then◌else◌, Bytes, text,
}
use ccnet_utilities.Common.{ℤ, pos, negsuc}
use ccnet_utilities.Platform.Exceptions.{IoManagerException, epoll_ctl_error, invalid_fd_exception}

pub data Event : Type 0 where
  monitor_read monitor_write : Event

-- The `events` of a registration: `EPOLLIN | EPOLLET` or `EPOLLOUT | EPOLLET`.
pub data Interest : Type 0 where
  in_et out_et : Interest

unfoldable pub adapt : Event → Interest
adapt monitor_read = in_et
adapt monitor_write = out_et

-- The result of a call of `epoll_ctl`: done, or `errno`.
pub data CtlResult : Type 0 where
  done : CtlResult
  exists : CtlResult
  failed : ℕ → CtlResult

-- The calls of the operating system. `epoll_wait` gives the descriptors that are ready, at most as
-- many as it is asked for, or `none` where it fails.
pub record Epoll : Type 1 where
  pub World : Type 0
  pub ctl_add : World → ℕ → Interest → CtlResult × World
  pub ctl_mod : World → ℕ → Interest → CtlResult × World
  pub ctl_del : World → ℕ → World
  pub wait : World → ℕ → ℤ → Option (List ℕ) × World

-- `std::coroutine_handle<>`: the address of the frame, 0 for none.
abbrev pub Handle : Type 0
Handle = ℕ

pub record Waiter : Type 0 where
  pub events : Interest
  pub handle : Handle

-- `table`, each descriptor once.
abbrev pub Table : Type 0
Table = List (ℕ × Waiter)

unfoldable pub lookup : ℕ → Table → Option Waiter
lookup fd [] = none
lookup fd ((k, w) ∷ rest) = if k == fd then some w else lookup fd rest

-- `table[fd] = w`.
unfoldable pub insert : ℕ → Waiter → Table → Table
insert fd w [] = (fd, w) ∷ []
insert fd w ((k, v) ∷ rest) = if k == fd then (k, w) ∷ rest else (k, v) ∷ insert fd w rest

-- `table.erase`.
unfoldable pub remove : ℕ → Table → Table
remove fd [] = []
remove fd ((k, v) ∷ rest) = if k == fd then rest else (k, v) ∷ remove fd rest

abbrev pub max_events : ℕ
max_events = 64

abbrev pub ctl_error : Bytes → ℕ → IoManagerException
ctl_error m code = record { kind = epoll_ctl_error; message = m; native_error_code = pos code }

-- `EEXIST` of Linux.
abbrev pub eexist : ℕ
eexist = 17

module _ (os : Epoll) where
  pub record Manager : Type 0 where
    pub world : os.World
    pub table : Table

  -- A method ends, or throws; the manager outlives both.
  abbrev pub Ended : Type 0
  Ended = Option IoManagerException × Manager

  abbrev pub registered : ℕ → Waiter → Table → os.World → Ended
  registered fd w table world = (none, record { world = world; table = insert fd w table })

  abbrev pub refused : Bytes → ℕ → Table → os.World → Ended
  refused m code table world = (some (ctl_error m code), record { world = world; table = table })

  -- The call with `EPOLL_CTL_MOD`.
  unfoldable pub modify_waiter : ℕ → Waiter → Table → os.World → Ended
  modify_waiter fd w table world =
      let (res, world') = os.ctl_mod world fd w.events in
      elim res [
        | done ↦ registered fd w table world'
        | exists ↦ refused (text "epoll_ctl MOD failed") eexist table world'
        | failed code ↦ refused (text "epoll_ctl MOD failed") code table world'
      ]

  unfoldable pub add_waiter : ℤ → Event → Handle → Manager → Ended
  add_waiter (negsuc n) events h m = (
    some (record {
      kind = invalid_fd_exception;
      message = text "Attempted to add waiter for invalid FD";
      native_error_code = pos 0;
    }),
    m,
  )
  add_waiter (pos fd) events h m =
      let w : Waiter = record { events = adapt events; handle = h } in
      let (res, world') = os.ctl_add m.world fd w.events in
      elim res [
        | done ↦ registered fd w m.table world'
        | exists ↦ modify_waiter fd w m.table world'
        | failed code ↦ refused (text "epoll_ctl ADD failed") code m.table world'
      ]

  unfoldable pub remove_waiter : ℕ → Manager → Manager
  remove_waiter fd m = elim (lookup fd m.table) [
    | none ↦ m
    | some w ↦ record { world = os.ctl_del m.world fd; table = remove fd m.table }
  ]

  abbrev pub push_handle : List Handle → Handle → List Handle
  push_handle out h = if h == 0 then out else out ++ h ∷ []

  -- One event: the registration goes, and its handle goes out unless it is null.
  unfoldable pub take_event : ℕ → Manager → List Handle → List Handle × Manager
  take_event fd m out = elim (lookup fd m.table) [
    | none ↦ (out, m)
    | some w ↦ (
      push_handle out w.handle,
      record { world = os.ctl_del m.world fd; table = remove fd m.table },
    )
  ]

  unfoldable pub take_events : List ℕ → Manager → List Handle → List Handle × Manager
  take_events [] m out = (out, m)
  take_events (fd ∷ fds) m out = let (out', m') = take_event fd m out in take_events fds m' out'

  -- The result is `out_handles`.
  unfoldable pub poll : ℤ → Manager → List Handle → List Handle × Manager
  poll timeout_ms m out =
      let (res, world') = os.wait m.world max_events timeout_ms in
      elim res [
        | none ↦ (out, record m { world = world' })
        | some fds ↦ take_events fds (record m { world = world' }) out
      ]

  unfoldable pub has_watchers : Manager → Bool
  has_watchers m = elim m.table [ [] ↦ false | p ∷ rest ↦ true ]
