-- ===== src/Platform/Frames/Owners.antt =====
-- Who owns a frame.
use ccnet_utilities.Common.{
  ℕ, zero, suc, ◌+◌, ◌≤◌, ◌≡◌, refl, sym, ap, ◌∙◌, subst, ◌≢◌, inl, inr, true, false, Option, none,
  some, List, [], ◌∷◌, ◌++◌, arith, dec_le, ◌==◌, Bool-cases,
}
use ccnet_utilities.Platform.Events.{Handle}
use ccnet_utilities.Platform.Events.Table.{count, one_if, count-append}
use ccnet_utilities.Platform.Frames.{
  Tasks, parent_of, set_parent, release, slot, set_slot, get_return_object, move_task, assign_task,
  spawn, destroy_task, await_suspend, final_suspend,
}
use ccnet_utilities.Platform.Frames.Live.{
  live, count-set_slot, slot-set_slot, live-set_parent, live-release, parent_of-live,
}

pub some-injective : {a b : Tasks} → some a ≡ some b → a ≡ b
some-injective e = cc

-- Each frame lives at an address of its own, and each that a task holds lives and is held once.
abbrev pub IsOwned : Tasks → Type 0
IsOwned s = (h : Handle) → h ≢ 0 → (count h s.handles ≤ live h s.frames) × (live h s.frames ≤ 1)

-- What the code does with tasks. A new frame has an address that no live one has.
pub data Step (s s' : Tasks) : Type 0 where
  creates : (p : Handle) → p ≢ 0 → live p s.frames ≡ 0 → s' ≡ get_return_object p s → Step s s'
  moves : (i : ℕ) → s' ≡ move_task i s → Step s s'
  assigns : (i j : ℕ) → s' ≡ assign_task i j s → Step s s'
  spawns : (i : ℕ) → s' ≡ spawn i s → Step s s'
  destroys : (i : ℕ) → destroy_task i s ≡ some s' → Step s s'
  awaits : (i : ℕ) (h : Handle) → await_suspend i h s ≡ some s' → Step s s'
  ends : (p : Handle) → final_suspend p s ≡ some s' → Step s s'
  resumes : (ready : List Handle) → s' ≡ record s { ready = ready } → Step s s'

pub data Reach (s : Tasks) : Tasks → Type 0 where
  here : Reach s s
  next : {s' s'' : Tasks} → Reach s s' → Step s' s'' → Reach s s''

get_return_object-IsOwned :
    (p : Handle) (s : Tasks) → live p s.frames ≡ 0 → IsOwned s → IsOwned (get_return_object p s)
unfolding get_return_object live count
get_return_object-IsOwned p s fresh owned h nonnull =
    let was : (count h s.handles ≤ live h s.frames) × (live h s.frames ≤ 1) = owned h nonnull in
    elim (Bool-cases (p == h)) [
      | inl e ↦
          let same : p ≡ h = ground arith in
          let new : live h s.frames ≡ 0 = subst (λ q. live q s.frames ≡ 0) same fresh in
          let one : count h (p ∷ []) ≡ 1 = rw e refl in
          rw e
            (omega (arith, was.0, count-append h s.handles (p ∷ []), new, one), omega (arith, new))
      | inr e ↦
          let zero_more : count h (p ∷ []) ≡ 0 = rw e refl in
          rw e (
            omega (arith, was.0, count-append h s.handles (p ∷ []), zero_more),
            omega (arith, was.1),
          )
    ]

move_task-IsOwned : (i : ℕ) (s : Tasks) → IsOwned s → IsOwned (move_task i s)
unfolding move_task count
move_task-IsOwned i s owned h nonnull =
    let null : one_if (0 == h) ≡ 0 = ground arith in
    (
      omega (
        arith,
        (owned h nonnull).0,
        count-set_slot h i 0 s.handles nonnull,
        null,
        count-append h (set_slot i 0 s.handles) (slot i s.handles ∷ []),
      ),
      (owned h nonnull).1,
    )

-- A slot is set to null: one holder less.
cleared :
    (h : Handle) (i : ℕ) (hs : List Handle)
    → h ≢ 0
    → count h (set_slot i 0 hs) + one_if (slot i hs == h) ≤ count h hs
cleared h i hs nonnull =
    let null : one_if (0 == h) ≡ 0 = ground arith in
    omega (arith, count-set_slot h i 0 hs nonnull, null)

assign_task-IsOwned : (i j : ℕ) (s : Tasks) → IsOwned s → IsOwned (assign_task i j s)
unfolding assign_task
assign_task-IsOwned i j s owned h nonnull =
    let set : List Handle = set_slot i (slot j s.handles) s.handles in
    let same : one_if (slot j set == h) ≡ one_if (slot j s.handles == h) =
      ap (λ x. one_if (x == h)) (slot-set_slot i j s.handles) in
    (
      omega (
        arith,
        (owned h nonnull).0,
        cleared h j set nonnull,
        same,
        count-set_slot h i (slot j s.handles) s.handles nonnull,
      ),
      (owned h nonnull).1,
    )

spawn-IsOwned : (i : ℕ) (s : Tasks) → IsOwned s → IsOwned (spawn i s)
unfolding spawn
spawn-IsOwned i s owned h nonnull =
    (omega (arith, (owned h nonnull).0, cleared h i s.handles nonnull), (owned h nonnull).1)

-- The frame of a task lives.
held-live :
    (i : ℕ) (s : Tasks) → IsOwned s → slot i s.handles ≢ 0 → 1 ≤ live (slot i s.handles) s.frames
held-live i s owned nonnull =
    let itself : one_if (slot i s.handles == slot i s.handles) ≡ 1 = ground arith in
    omega (
      arith,
      (owned (slot i s.handles) nonnull).0,
      itself,
      cleared (slot i s.handles) i s.handles nonnull,
    )

-- What the destructor leaves of a frame that lives.
abbrev pub destroyed : ℕ → Tasks → Tasks
destroyed i s = record s {
  frames = release (slot i s.handles) s.frames;
  handles = set_slot i 0 s.handles;
}

destroy_task_live :
    (i : ℕ) (s : Tasks) → IsOwned s → slot i s.handles ≢ 0 → destroy_task i s ≡ some (destroyed i s)
unfolding destroy_task
destroy_task_live i s owned nonnull =
    let held : (slot i s.handles == 0) ≡ false = ground arith in
    let (parent, e) = parent_of-live (slot i s.handles) s.frames (held-live i s owned nonnull) in
    rw (held, e) refl

destroy_task_null : (i : ℕ) (s : Tasks) → slot i s.handles ≡ 0 → destroy_task i s ≡ some s
unfolding destroy_task
destroy_task_null i s e = let null : (slot i s.handles == 0) ≡ true = ground arith in rw null refl

destroyed-IsOwned : (i : ℕ) (s : Tasks) → IsOwned s → slot i s.handles ≢ 0 → IsOwned (destroyed i s)
destroyed-IsOwned i s owned held h nonnull =
    let gone : live h (release (slot i s.handles) s.frames) + one_if (slot i s.handles == h)
        ≡ live h s.frames =
      live-release h (slot i s.handles) s.frames (held-live i s owned held) in
    (
      omega (arith, (owned h nonnull).0, cleared h i s.handles nonnull, gone, (owned h nonnull).1),
      omega (arith, (owned h nonnull).1, gone),
    )

destroy_task-IsOwned : (i : ℕ) (s s' : Tasks) → destroy_task i s ≡ some s' → IsOwned s → IsOwned s'
destroy_task-IsOwned i s s' e owned = elim (dec_le (slot i s.handles) 0) [
  | yes null ↦
      let same : s ≡ s' = some-injective (sym (destroy_task_null i s (omega arith)) ∙ e) in
      subst IsOwned same owned
  | no held ↦
      let same : destroyed i s ≡ s' =
        some-injective (sym (destroy_task_live i s owned (omega arith)) ∙ e) in
      subst IsOwned same (destroyed-IsOwned i s owned (omega arith))
]

-- What awaiting a task leaves where its frame lives.
abbrev pub awaited : ℕ → Handle → Tasks → Tasks
awaited i h s = record s {
  frames = set_parent (slot i s.handles) h s.frames;
  ready = s.ready ++ slot i s.handles ∷ [];
}

await_suspend_live :
    (i : ℕ) (h : Handle) (s : Tasks)
    → 1 ≤ live (slot i s.handles) s.frames
    → await_suspend i h s ≡ some (awaited i h s)
unfolding await_suspend
await_suspend_live i h s lives =
    let (parent, e) = parent_of-live (slot i s.handles) s.frames lives in rw (e, await_suspend) refl

awaited-IsOwned : (i : ℕ) (h : Handle) (s : Tasks) → IsOwned s → IsOwned (awaited i h s)
awaited-IsOwned i h s owned k nonnull =
    let same : live k (set_parent (slot i s.handles) h s.frames) ≡ live k s.frames =
      live-set_parent k (slot i s.handles) h s.frames in
    (omega (arith, (owned k nonnull).0, same), omega (arith, (owned k nonnull).1, same))

await_suspend-IsOwned :
    (i : ℕ) (h : Handle) (s s' : Tasks) → await_suspend i h s ≡ some s' → IsOwned s → IsOwned s'
unfolding await_suspend
await_suspend-IsOwned i h s s' e owned = by_parent (parent_of (slot i s.handles) s.frames) refl
  where
    by_parent : (found : Option Handle) → parent_of (slot i s.handles) s.frames ≡ found → IsOwned s'
    by_parent none f =
        let lost : await_suspend i h s ≡ none = rw (f, await_suspend) refl in absurd cc
    by_parent (some parent) f =
        let done : await_suspend i h s ≡ some (awaited i h s) = rw (f, await_suspend) refl in
        subst IsOwned (some-injective (sym done ∙ e)) (awaited-IsOwned i h s owned)

-- A frame that has ended is still there, and its task holds it.
final_suspend-same :
    (p : Handle) (s s' : Tasks)
    → final_suspend p s ≡ some s'
    → (s'.handles ≡ s.handles) × (s'.frames ≡ s.frames)
unfolding final_suspend
final_suspend-same p s s' e = by_parent (parent_of p s.frames) refl
  where
    by_parent :
        (found : Option Handle)
        → parent_of p s.frames ≡ found
        → (s'.handles ≡ s.handles) × (s'.frames ≡ s.frames)
    by_parent none f = let lost : final_suspend p s ≡ none = rw (f, final_suspend) refl in absurd cc
    by_parent (some zero) f =
        let done : final_suspend p s ≡ some s = rw (f, final_suspend) refl in
        let same : s ≡ s' = some-injective (sym done ∙ e) in
        (ap (λ x. x.handles) (sym same), ap (λ x. x.frames) (sym same))
    by_parent (some (suc q)) f =
        let parent : (suc q == 0) ≡ false = ground arith in
        let done : final_suspend p s ≡ some (record s { ready = s.ready ++ suc q ∷ [] }) =
          rw (f, final_suspend, parent) refl in
        let same : record s { ready = s.ready ++ suc q ∷ [] } ≡ s' =
          some-injective (sym done ∙ e) in
        (ap (λ x. x.handles) (sym same), ap (λ x. x.frames) (sym same))

final_suspend-IsOwned :
    (p : Handle) (s s' : Tasks) → final_suspend p s ≡ some s' → IsOwned s → IsOwned s'
final_suspend-IsOwned p s s' e owned h nonnull =
    let (a, b) = final_suspend-same p s s' e in
    let c : count h s'.handles ≡ count h s.handles = ap (λ x. count h x) a in
    let l : live h s'.frames ≡ live h s.frames = ap (λ x. live h x) b in
    (omega (arith, (owned h nonnull).0, c, l), omega (arith, (owned h nonnull).1, l))

Step-IsOwned : {s s' : Tasks} → Step s s' → IsOwned s → IsOwned s'
Step-IsOwned {s} (creates p nonnull fresh e) owned =
    subst IsOwned (sym e) (get_return_object-IsOwned p s fresh owned)
Step-IsOwned {s} (moves i e) owned = subst IsOwned (sym e) (move_task-IsOwned i s owned)
Step-IsOwned {s} (assigns i j e) owned = subst IsOwned (sym e) (assign_task-IsOwned i j s owned)
Step-IsOwned {s} (spawns i e) owned = subst IsOwned (sym e) (spawn-IsOwned i s owned)
Step-IsOwned {s} {s'} (destroys i e) owned = destroy_task-IsOwned i s s' e owned
Step-IsOwned {s} {s'} (awaits i h e) owned = await_suspend-IsOwned i h s s' e owned
Step-IsOwned {s} {s'} (ends p e) owned = final_suspend-IsOwned p s s' e owned
Step-IsOwned {s} (resumes ready e) owned = subst IsOwned (sym e) owned

Reach-IsOwned : {s s' : Tasks} → Reach s s' → IsOwned s → IsOwned s'
Reach-IsOwned here owned = owned
Reach-IsOwned (next r st) owned = Step-IsOwned st (Reach-IsOwned r owned)

-- From a state in which each task that is not null holds a live frame, and no two the same, every
-- sequence of calls of coroutines, moves, assignments, spawns, awaits, ends and destructors, with any
-- changes of the ready queue between them, leads to one where each destructor of a task finds its
-- frame still there, so that none destroys one twice, and each task that is not null can be awaited.
-- A new frame is at an address that no live one has, and what ends is a coroutine whose frame lives.
-- Of handles in the ready queue nothing is said.
pub Reach-destroy_task :
    {s s' : Tasks} (i : ℕ)
    → Reach s s'
    → IsOwned s
    → ((s₁ : Tasks) × (destroy_task i s' ≡ some s₁))
      × (slot i s'.handles ≢ 0 → (h : Handle) → (s₂ : Tasks) × (await_suspend i h s' ≡ some s₂))
Reach-destroy_task {s} {s'} i r start =
    let owned : IsOwned s' = Reach-IsOwned r start in
    let destroys_it : (s₁ : Tasks) × (destroy_task i s' ≡ some s₁) =
      elim (dec_le (slot i s'.handles) 0) [
        | yes null ↦ (s', destroy_task_null i s' (omega arith))
        | no held ↦ (destroyed i s', destroy_task_live i s' owned (omega arith))
      ] in
    (destroys_it, λ held h. (awaited i h s', await_suspend_live i h s' (held-live i s' owned held)))
