-- ===== src/Platform/Frames/Resumed.antt =====
-- A coroutine that awaits another is resumed when that has ended.
use ccnet_utilities.Common.{
  ℕ, ◌≡◌, refl, sym, ap, ◌∙◌, subst, ◌≢◌, inl, inr, false, Option, none, some, [], ◌∷◌, ◌++◌, arith,
  ◌==◌, if◌then◌else◌, Bool-cases,
}
use ccnet_utilities.Platform.Events.{Handle}
use ccnet_utilities.Platform.Frames.Owners.{awaited, some-injective}
use ccnet_utilities.Platform.Frames.{
  Frames, Tasks, parent_of, set_parent, slot, await_suspend, final_suspend,
}

parent_of-set_parent :
    (p h : Handle) (frames : Frames) {parent : Handle}
    → parent_of p frames ≡ some parent
    → parent_of p (set_parent p h frames) ≡ some h
unfolding parent_of set_parent
parent_of-set_parent p h [] e = absurd cc
parent_of-set_parent p h ((q, old) ∷ frames) {parent} e = elim (Bool-cases (q == p)) [
  | inl same ↦ rw (same, set_parent, parent_of, same) refl
  | inr apart ↦
      let deeper : parent_of p frames ≡ some parent =
        subst (λ b. (if b then some old else parent_of p frames) ≡ some parent) apart e in
      rw (apart, parent_of, apart) (parent_of-set_parent p h frames deeper)
]

final_suspend_parent :
    (p h : Handle) (s : Tasks)
    → h ≢ 0
    → parent_of p s.frames ≡ some h
    → final_suspend p s ≡ some (record s { ready = s.ready ++ h ∷ [] })
unfolding final_suspend
final_suspend_parent p h s nonnull e =
    let parent : (h == 0) ≡ false = ground arith in rw (e, final_suspend, parent) refl

-- Where a coroutine `h` awaits a task, the coroutine of the task is put behind those that are ready;
-- in any later state in which the promises are still the same, that coroutine can end, and its end
-- puts `h` behind those that are ready then and changes nothing else.
pub final_suspend-await_suspend :
    (i : ℕ) (h : Handle) (s s' later : Tasks)
    → h ≢ 0
    → await_suspend i h s ≡ some s'
    → later.frames ≡ s'.frames
    → (s'.ready ≡ s.ready ++ slot i s.handles ∷ [])
      × (final_suspend (slot i s.handles) later
          ≡ some (record later { ready = later.ready ++ h ∷ [] }))
unfolding await_suspend
final_suspend-await_suspend i h s s' later nonnull e kept =
    by_parent (parent_of (slot i s.handles) s.frames) refl
  where
    by_parent :
        (found : Option Handle)
        → parent_of (slot i s.handles) s.frames ≡ found
        → (s'.ready ≡ s.ready ++ slot i s.handles ∷ [])
          × (final_suspend (slot i s.handles) later
              ≡ some (record later { ready = later.ready ++ h ∷ [] }))
    by_parent none f =
        let lost : await_suspend i h s ≡ none = rw (f, await_suspend) refl in absurd cc
    by_parent (some parent) f =
        let done : await_suspend i h s ≡ some (awaited i h s) = rw (f, await_suspend) refl in
        let same : awaited i h s ≡ s' = some-injective (sym done ∙ e) in
        let frames : later.frames ≡ set_parent (slot i s.handles) h s.frames =
          kept ∙ ap (λ x. x.frames) (sym same) in
        (
          ap (λ x. x.ready) (sym same),
          final_suspend_parent (slot i s.handles) h later nonnull (
              ap (λ x. parent_of (slot i s.handles) x) frames
              ∙ parent_of-set_parent (slot i s.handles) h s.frames f),
        )
