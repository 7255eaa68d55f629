-- ===== src/Tests/Frames.antt =====
-- Three coroutines, and the theorems on them.
use ccnet_utilities.Common.{◌≡◌, refl, ◌≢◌, some, [], ◌∷◌, ◌++◌, arith}
use ccnet_utilities.Platform.Frames.{
  Tasks, get_return_object, move_task, slot, destroy_task, await_suspend, final_suspend, parent_of,
  set_parent,
}
use ccnet_utilities.Platform.Events.{Handle}
use ccnet_utilities.Platform.Events.Table.{count}
use ccnet_utilities.Platform.Frames.Live.{live}
use ccnet_utilities.Platform.Frames.Owners.{
  IsOwned, Reach, here, next, creates, moves, Reach-destroy_task,
}
use ccnet_utilities.Platform.Frames.Resumed.{final_suspend-await_suspend}

abbrev none_yet : Tasks
none_yet = record { frames = []; handles = []; ready = [] }

none_yet-IsOwned : IsOwned none_yet
unfolding count live
none_yet-IsOwned h nonnull = (omega arith, omega arith)

abbrev one : Tasks
one = get_return_object 16 none_yet

abbrev two : Tasks
two = get_return_object 32 one

no_32 : live 32 one.frames ≡ 0
unfolding live get_return_object
no_32 = refl

abbrev moved : Tasks
moved = move_task 0 two

moved-Reach : Reach none_yet moved
unfolding live
moved-Reach =
    next
      (next (next here (creates 16 (omega arith) refl refl)) (creates 32 (omega arith) no_32 refl))
      (moves 0 refl)

Reach-destroy_task_example :
    ((s₁ : Tasks) × (destroy_task 2 moved ≡ some s₁))
    × (slot 2 moved.handles ≢ 0 → (h : Handle) → (s₂ : Tasks) × (await_suspend 2 h moved ≡ some s₂))
Reach-destroy_task_example = Reach-destroy_task 2 moved-Reach none_yet-IsOwned

-- The coroutine at 16 awaits the task of the coroutine at 32.
abbrev waiting : Tasks
waiting = record { frames = (32, 16) ∷ (16, 0) ∷ []; handles = 16 ∷ 32 ∷ []; ready = 32 ∷ [] }

abbrev running : Tasks
running = record { frames = (32, 0) ∷ (16, 0) ∷ []; handles = 16 ∷ 32 ∷ []; ready = [] }

await-running : await_suspend 1 16 running ≡ some waiting
unfolding await_suspend parent_of set_parent slot
await-running = refl

final_suspend-await_suspend_example :
    (waiting.ready ≡ running.ready ++ slot 1 running.handles ∷ [])
    × (final_suspend (slot 1 running.handles) (record waiting { ready = [] })
        ≡ some (record waiting { ready = [] ++ 16 ∷ [] }))
final_suspend-await_suspend_example =
    final_suspend-await_suspend 1 16 running waiting (record waiting { ready = [] }) (omega arith)
      await-running refl
