-- ===== src/Platform/Frames.antt =====
-- platform/coro_platform/Task.hpp: the handles that `Task` objects hold, and `spawn` of
-- scheduler.hpp, which takes one.
pub mod Live
pub mod Owners
pub mod Resumed
use ccnet_utilities.Common.{
  ℕ, zero, suc, ◌+◌, ◌-◌, ◌*◌, ◌/◌, ◌%◌, ◌^◌, ◌≤◌, ◌<◌, min, ◌≡◌, refl, sym, ap, ◌∙◌, subst, ◌≢◌,
  ◌↔◌, ◌⊎◌, inl, inr, Bool, true, false, not, ◌&&◌, ◌||◌, Option, none, some, List, [], ◌∷◌, ◌++◌,
  append_assoc, append-nil, arith, dec_lt, dec_le, ltb, leb, ◌==◌, if◌then◌else◌, within,
  Bool-cases, Option-cases, ==_iff, length, take, drop, length-append, length-take, length-drop,
  take-append-drop, All, Bytes, codes, text, equal, equal_iff, find, find_byte, substr,
}
use ccnet_utilities.Platform.Events.{Handle}

-- The frames that live, each with the `parent_coroutine` of its promise.
abbrev pub Frames : Type 0
Frames = List (Handle × Handle)

-- The `coroutine_handle` of each `Task`, and the ready queue of the scheduler.
pub record Tasks : Type 0 where
  pub frames : Frames
  pub handles : List Handle
  pub ready : List Handle

unfoldable pub parent_of : Handle → Frames → Option Handle
parent_of p [] = none
parent_of p ((q, parent) ∷ rest) = if q == p then some parent else parent_of p rest

unfoldable pub set_parent : Handle → Handle → Frames → Frames
set_parent p h [] = []
set_parent p h ((q, parent) ∷ rest) =
    if q == p then (q, h) ∷ rest else (q, parent) ∷ set_parent p h rest

unfoldable pub release : Handle → Frames → Frames
release p [] = []
release p ((q, parent) ∷ rest) = if q == p then rest else (q, parent) ∷ release p rest

-- The handle of the task `i`, null where there is no such task.
unfoldable pub slot : ℕ → List Handle → Handle
slot i [] = 0
slot zero (h ∷ hs) = h
slot (suc i) (h ∷ hs) = slot i hs

unfoldable pub set_slot : ℕ → Handle → List Handle → List Handle
set_slot i x [] = []
set_slot zero x (h ∷ hs) = x ∷ hs
set_slot (suc i) x (h ∷ hs) = h ∷ set_slot i x hs

-- A coroutine is called: its frame at `p`, and `get_return_object`.
unfoldable pub get_return_object : Handle → Tasks → Tasks
get_return_object p s = record s { frames = (p, 0) ∷ s.frames; handles = s.handles ++ p ∷ [] }

-- `Task(Task&& o)` from the task `i`.
unfoldable pub move_task : ℕ → Tasks → Tasks
move_task i s = record s { handles = set_slot i 0 s.handles ++ slot i s.handles ∷ [] }

-- `operator=(Task&& o)`: the task `j` to the task `i`, whose old frame is forgotten.
unfoldable pub assign_task : ℕ → ℕ → Tasks → Tasks
assign_task i j s = record s { handles = set_slot j 0 (set_slot i (slot j s.handles) s.handles) }

-- `Scheduler::spawn` of the task `i`.
unfoldable pub spawn : ℕ → Tasks → Tasks
spawn i s = record s { handles = set_slot i 0 s.handles; ready = s.ready ++ slot i s.handles ∷ [] }

-- `~Task()`; `none` is a frame that does not live. The task is gone, which a null handle stands for.
unfoldable pub destroy_task : ℕ → Tasks → Option Tasks
destroy_task i s =
    if slot i s.handles == 0 then some s else (elim (parent_of (slot i s.handles) s.frames) [
      | none ↦ none
      | some parent ↦ some (record s {
        frames = release (slot i s.handles) s.frames;
        handles = set_slot i 0 s.handles;
      })
    ])

-- `co_await` of the task `i` by the coroutine `h`; `none` is a frame that does not live.
unfoldable pub await_suspend : ℕ → Handle → Tasks → Option Tasks
await_suspend i h s = elim (parent_of (slot i s.handles) s.frames) [
  | none ↦ none
  | some parent ↦ some (record s {
    frames = set_parent (slot i s.handles) h s.frames;
    ready = s.ready ++ slot i s.handles ∷ [];
  })
]

-- The coroutine at `p` has ended; `none` is a frame that does not live.
unfoldable pub final_suspend : Handle → Tasks → Option Tasks
final_suspend p s = elim (parent_of p s.frames) [
  | none ↦ none
  | some parent ↦ some (if parent == 0 then s else record s { ready = s.ready ++ parent ∷ [] })
]
