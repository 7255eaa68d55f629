-- ===== src/Utils/Copy/Tight.antt =====
-- Strings that `trim_copy` leaves as they are, or whose first space it cuts.
use ccnet_utilities.Common.{
  ℕ, zero, suc, ◌+◌, ◌-◌, ◌<◌, ◌≡◌, refl, subst, false, [], ◌∷◌, arith, length, Bytes, take-length,
}
use ccnet_utilities.Utils.Copy.{is_space, byte_at, trim_front, trim_back, trim_copy}
use ccnet_utilities.Cpp.Words.{NoSpaces}

-- No space at either end.
abbrev pub IsTight : Bytes → Type 0
IsTight s =
    (0 < length s → is_space (byte_at s 0) ≡ false)
    × (0 < length s → is_space (byte_at s (length s - 1)) ≡ false)

trim_front_stays : (s : Bytes) (a n : ℕ) → is_space (byte_at s a) ≡ false → trim_front s a n ≡ a
unfolding trim_front
trim_front_stays s a zero h = refl
trim_front_stays s a (suc n) h = rw h refl

trim_back_stays :
    (s : Bytes) (a n : ℕ) → is_space (byte_at s (a + n)) ≡ false → trim_back s a (suc n) ≡ suc n
unfolding trim_back
trim_back_stays s a n h = rw h refl

-- A string with no space at either end is left as it is.
pub trim_copy-IsTight : (s : Bytes) → IsTight s → trim_copy s ≡ s
unfolding trim_copy trim_front trim_back
trim_copy-IsTight [] t = refl
trim_copy-IsTight (c ∷ s) t =
    let front : trim_front (c ∷ s) 0 (suc (length s)) ≡ 0 =
      trim_front_stays (c ∷ s) 0 (suc (length s)) (t.0 (omega arith)) in
    let i : length (c ∷ s) - 1 ≡ 0 + length s = omega arith in
    let last : is_space (byte_at (c ∷ s) (0 + length s)) ≡ false =
      subst (λ k. is_space (byte_at (c ∷ s) k) ≡ false) i (t.1 (omega arith)) in
    let back : trim_back (c ∷ s) 0 (suc (length s)) ≡ suc (length s) =
      trim_back_stays (c ∷ s) 0 (length s) last in
    let size : length (c ∷ s) - 0 ≡ suc (length s) = omega arith in
    rw (front, size, back) (take-length (c ∷ s))

trim_front-cons :
    (c : ℕ) (s : Bytes) (a n : ℕ) → trim_front (c ∷ s) (suc a) n ≡ suc (trim_front s a n)
unfolding trim_front
trim_front-cons c s a zero = refl
trim_front-cons c s a (suc n) =
    let next : suc a + 1 ≡ suc (a + 1) = omega arith in
    rw next (ground (arith, trim_front-cons c s (a + 1) n))

trim_back-cons : (c : ℕ) (s : Bytes) (a n : ℕ) → trim_back (c ∷ s) (suc a) n ≡ trim_back s a n
unfolding trim_back
trim_back-cons c s a zero = refl
trim_back-cons c s a (suc n) =
    let next : suc a + n ≡ suc (a + n) = omega arith in
    rw next (ground (arith, trim_back-cons c s a n))

-- A space at the front is cut.
pub trim_copy-space : (s : Bytes) → trim_copy (b' ' ∷ s) ≡ trim_copy s
unfolding trim_copy is_space
trim_copy-space s =
    let front : trim_front (b' ' ∷ s) 0 (suc (length s)) ≡ suc (trim_front s 0 (length s)) =
      unfold trim_front is_space in trim_front-cons b' ' s 0 (length s) in
    let a : ℕ = trim_front s 0 (length s) in
    let size : length (b' ' ∷ s) - suc a ≡ length s - a = omega arith in
    rw (front, size, trim_back-cons b' ' s a (length s - a)) refl

-- A string with no spaces at all has none at its ends.
pub NoSpaces-IsTight : (s : Bytes) → NoSpaces s → IsTight s
NoSpaces-IsTight s h = (λ lt. no_space s 0 h lt, λ lt. no_space s (length s - 1) h (omega arith))
  where
    no_space : (s : Bytes) (i : ℕ) → NoSpaces s → i < length s → is_space (byte_at s i) ≡ false
    no_space [] i h lt = absurd (omega arith)
    no_space (c ∷ s) zero h lt = h.0
    no_space (c ∷ s) (suc i) h lt = no_space s i h.1 (omega arith)
