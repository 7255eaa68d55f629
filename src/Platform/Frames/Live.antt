-- ===== src/Platform/Frames/Live.antt =====
-- The frames that live, and the slots that hold their handles.
use ccnet_utilities.Common.{
  ℕ, zero, suc, ◌+◌, ◌≤◌, ◌≡◌, refl, ◌≢◌, inl, inr, some, List, [], ◌∷◌, arith, ◌==◌, Bool-cases,
}
use ccnet_utilities.Platform.Events.{Handle}
use ccnet_utilities.Platform.Events.Table.{count, one_if}
use ccnet_utilities.Platform.Frames.{Frames, parent_of, set_parent, release, slot, set_slot}

-- How many frames live at an address.
unfoldable pub live : Handle → Frames → ℕ
live h [] = 0
live h ((q, parent) ∷ rest) = one_if (q == h) + live h rest

pub count-set_slot :
    (h : Handle) (i : ℕ) (x : Handle) (hs : List Handle)
    → h ≢ 0
    → count h (set_slot i x hs) + one_if (slot i hs == h) ≤ count h hs + one_if (x == h)
unfolding count set_slot slot
count-set_slot h i x [] nonnull = ground arith
count-set_slot h zero x (y ∷ hs) nonnull = omega arith
count-set_slot h (suc i) x (y ∷ hs) nonnull = omega (arith, count-set_slot h i x hs nonnull)

pub slot-set_slot : (i j : ℕ) (hs : List Handle) → slot j (set_slot i (slot j hs) hs) ≡ slot j hs
unfolding set_slot slot
slot-set_slot i j [] = refl
slot-set_slot zero zero (h ∷ hs) = refl
slot-set_slot zero (suc j) (h ∷ hs) = refl
slot-set_slot (suc i) zero (h ∷ hs) = refl
slot-set_slot (suc i) (suc j) (h ∷ hs) = slot-set_slot i j hs

pub live-set_parent :
    (h p q : Handle) (frames : Frames) → live h (set_parent p q frames) ≡ live h frames
unfolding live set_parent
live-set_parent h p q [] = refl
live-set_parent h p q ((r, parent) ∷ frames) = ground (arith, live-set_parent h p q frames)

pub live-release :
    (h p : Handle) (frames : Frames)
    → 1 ≤ live p frames
    → live h (release p frames) + one_if (p == h) ≡ live h frames
unfolding live release
live-release h p [] lives = absurd (omega arith)
live-release h p ((r, parent) ∷ frames) lives = ground (arith, live-release h p frames)

pub parent_of-live :
    (p : Handle) (frames : Frames)
    → 1 ≤ live p frames
    → (parent : Handle) × (parent_of p frames ≡ some parent)
unfolding live parent_of
parent_of-live p [] lives = absurd (omega arith)
parent_of-live p ((r, parent) ∷ frames) lives = elim (Bool-cases (r == p)) [
  | inl e ↦ rw e (parent, refl)
  | inr e ↦ let behind : 1 ≤ live p frames = ground arith in rw e (parent_of-live p frames behind)
]
