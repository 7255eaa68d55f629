-- ===== src/Utils/Copy/Trim.antt =====
-- What `trim_copy` of library/utils/copy_helpers.hpp cuts.
use ccnet_utilities.Common.{
  ℕ, zero, suc, ◌+◌, ◌-◌, ◌≤◌, ◌<◌, ◌≡◌, true, false, refl, arith, Bool-cases, length, substr,
  Bytes, inl, inr, dec_lt, subst,
}
use ccnet_utilities.Utils.Copy.{is_space, byte_at, trim_front, trim_back, trim_copy}

-- Every byte from `i` up to `j` is a space.
abbrev pub Spaces : Bytes → ℕ → ℕ → Type 0
Spaces s i j = (k : ℕ) → i ≤ k → k < j → is_space (byte_at s k) ≡ true

-- `s` without the spaces at its ends is the `n` bytes from `a` on.
pub record IsTrimmed (s : Bytes) (a n : ℕ) : Type 0 where
  pub fits : a + n ≤ length s
  pub before : Spaces s 0 a
  pub after : Spaces s (a + n) (length s)
  pub first : 0 < n → is_space (byte_at s a) ≡ false
  pub last : 0 < n → is_space (byte_at s (a + n - 1)) ≡ false

pub record FrontEnds (s : Bytes) (a n r : ℕ) : Type 0 where
  pub lower : a ≤ r
  pub upper : r ≤ a + n
  pub spaces : Spaces s a r
  pub stops : r < a + n → is_space (byte_at s r) ≡ false

Spaces-cons :
    (s : Bytes) (a r : ℕ) → is_space (byte_at s a) ≡ true → Spaces s (a + 1) r → Spaces s a r
Spaces-cons s a r h rest k lo hi = elim (dec_lt a k) [
  | yes lt ↦ rest k (omega arith) hi
  | no ge ↦ let e : a ≡ k = omega arith in subst (λ j. is_space (byte_at s j) ≡ true) e h
]

trim_front-FrontEnds : (s : Bytes) (a n : ℕ) → FrontEnds s a n (trim_front s a n)
trim_front-FrontEnds s a zero =
    unfold trim_front in
    record {
      lower = omega arith;
      upper = omega arith;
      spaces = λ k lo hi. absurd (omega arith);
      stops = λ h. absurd (omega arith);
    }
trim_front-FrontEnds s a (suc n) = front_step s a n (trim_front-FrontEnds s (a + 1) n)
  where
    front_step :
        (s : Bytes) (a n : ℕ)
        → FrontEnds s (a + 1) n (trim_front s (a + 1) n)
        → FrontEnds s a (suc n) (trim_front s a (suc n))
    front_step s a n rest = elim (Bool-cases (is_space (byte_at s a))) [
      | inl e ↦
          unfold trim_front in
          rw e (record {
            lower = omega (arith, rest.lower);
            upper = omega (arith, rest.upper);
            spaces = Spaces-cons s a _ e rest.spaces;
            stops = λ h. rest.stops (omega arith);
          })
      | inr e ↦
          unfold trim_front in
          rw e (record {
            lower = omega arith;
            upper = omega arith;
            spaces = λ k lo hi. absurd (omega arith);
            stops = λ h. e;
          })
    ]

pub record BackEnds (s : Bytes) (a n r : ℕ) : Type 0 where
  pub upper : r ≤ n
  pub spaces : Spaces s (a + r) (a + n)
  pub stops : 0 < r → is_space (byte_at s (a + r - 1)) ≡ false

Spaces-snoc :
    (s : Bytes) (i j : ℕ) → is_space (byte_at s j) ≡ true → Spaces s i j → Spaces s i (suc j)
Spaces-snoc s i j h rest k lo hi = elim (dec_lt k j) [
  | yes lt ↦ rest k lo lt
  | no ge ↦ let e : j ≡ k = omega arith in subst (λ m. is_space (byte_at s m) ≡ true) e h
]

back_step :
    (s : Bytes) (a n : ℕ)
    → BackEnds s a n (trim_back s a n)
    → BackEnds s a (suc n) (trim_back s a (suc n))
unfolding trim_back
back_step s a n rest = elim (Bool-cases (is_space (byte_at s (a + n)))) [
  | inl e ↦ rw e (record {
    upper = omega (arith, rest.upper);
    spaces =
        let q : suc (a + n) ≡ a + suc n = omega arith in
        subst (Spaces s _) q (Spaces-snoc s _ (a + n) e rest.spaces);
    stops = rest.stops;
  })
  | inr e ↦ rw e (record {
    upper = omega arith;
    spaces = λ k lo hi. absurd (omega arith);
    stops = λ h. let q : a + n ≡ a + suc n - 1 = omega arith in rw (← q) e;
  })
]

trim_back-BackEnds : (s : Bytes) (a n : ℕ) → BackEnds s a n (trim_back s a n)
trim_back-BackEnds s a zero =
    unfold trim_back in
    record {
      upper = omega arith;
      spaces = λ k lo hi. absurd (omega arith);
      stops = λ h. absurd (omega arith);
    }
trim_back-BackEnds s a (suc n) = back_step s a n (trim_back-BackEnds s a n)

-- The result is what stands between the spaces at the two ends, which are all cut; in a string
-- of spaces only it is empty.
pub trim_copy_lem : (s : Bytes) → (a : ℕ) × (n : ℕ) × (trim_copy s ≡ substr s a n) × IsTrimmed s a n
unfolding trim_copy
trim_copy_lem s =
    let a = trim_front s 0 (length s) in
    let n = trim_back s a (length s - a) in
    let front = trim_front-FrontEnds s 0 (length s) in
    let back = trim_back-BackEnds s a (length s - a) in
    (
      a,
      n,
      refl,
      record {
        fits = omega (arith, front.upper, back.upper);
        before = front.spaces;
        after =
            let q : a + (length s - a) ≡ length s = omega (arith, front.upper) in
            subst (Spaces s (a + n)) q back.spaces;
        first = λ h. front.stops (omega (arith, back.upper));
        last = back.stops;
      },
    )
