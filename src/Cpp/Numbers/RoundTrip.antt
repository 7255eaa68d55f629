-- ===== src/Cpp/Numbers/RoundTrip.antt =====
-- A printed number is read back.
use ccnet_utilities.Common.{
  ℕ, zero, suc, ◌+◌, ◌*◌, ◌/◌, ◌%◌, ◌^◌, ◌≤◌, ◌<◌, ◌≡◌, refl, ◌∙◌, subst, ◌≢◌, ◌⊎◌, inl, inr, true,
  false, none, some, [], ◌∷◌, arith, ◌==◌, Bool-cases, ==_iff, All, Bytes, lt→ltb,
}
use ccnet_utilities.Cpp.Numbers.{
  digit, read_digits, starts_digit, digit_char, print_digits, to_string, format_hex, stoull,
  stoull_hex, bounded, read_sign, hex_prefix, skip_prefix,
}
use ccnet_utilities.Utils.Copy.{is_space}
use ccnet_utilities.Cpp.Words.{skip_spaces}

digit-digit_char : (base d : ℕ) → d < base → base ≤ 16 → digit base (digit_char d) ≡ some d
unfolding digit digit_char
digit-digit_char base d h k = ground arith

-- Reading the last digit behind the others.
read_last :
    (base n : ℕ) (out : Bytes)
    → 2 ≤ base
    → base ≤ 16
    → read_digits base (n / base) (digit_char (n % base) ∷ out) ≡ read_digits base n out
unfolding read_digits
read_last base n out lo hi =
    let small : n % base < base = grind arith in
    let whole : n / base * base + n % base ≡ n = grind arith in
    rw (digit-digit_char base (n % base) small hi, read_digits) (rw whole)

positive : (q : ℕ) → q ≡ 0 → (q == 0) ≡ false → ⊥
positive q z e = ground arith

div_smaller : (base n f : ℕ) → 2 ≤ base → n < suc f → n / base ≢ 0 → n / base < f
div_smaller base n f lo h ne =
    let whole : n / base * base + n % base ≡ n = grind arith in
    let double : n / base * 2 ≤ n / base * base = grind arith in omega arith

read_digits-print_digits :
    (f base n : ℕ) (out : Bytes)
    → 2 ≤ base
    → base ≤ 16
    → n < f
    → read_digits base 0 (print_digits f base n out) ≡ read_digits base n out
unfolding print_digits
read_digits-print_digits zero base n out lo hi h = absurd (omega arith)
read_digits-print_digits (suc f) base n out lo hi h = elim (Bool-cases (n / base == 0)) [
  | inl e ↦
      let z : n / base ≡ 0 = (==_iff (n / base) 0).0 e in
      rw e (
        subst (λ q. read_digits base q (digit_char (n % base) ∷ out) ≡ read_digits base n out) z
          (read_last base n out lo hi))
  | inr e ↦ rw e (
      read_digits-print_digits f base (n / base) (digit_char (n % base) ∷ out) lo hi
        (div_smaller base n f lo h (λ z. positive (n / base) z e))
      ∙ read_last base n out lo hi)
]

-- A character that `print_digits` writes.
abbrev pub IsDigit : ℕ → ℕ → Type 0
IsDigit base c = (d : ℕ) × (d < base) × (c ≡ digit_char d)

pub print_digits-IsDigit :
    (f base n : ℕ) (out : Bytes)
    → 2 ≤ base
    → All (IsDigit base) out
    → All (IsDigit base) (print_digits f base n out)
unfolding print_digits
print_digits-IsDigit zero base n out lo h = h
print_digits-IsDigit (suc f) base n out lo h =
    let last : IsDigit base (digit_char (n % base)) = (n % base, grind arith, refl) in
    elim (Bool-cases (n / base == 0)) [
      | inl e ↦ rw e (last, h)
      | inr e ↦ rw e (print_digits-IsDigit f base (n / base) _ lo (last, h))
    ]

print_digits-ne-nil :
    (f base n : ℕ) (out : Bytes) → (0 < f) ⊎ (out ≢ []) → print_digits f base n out ≢ []
unfolding print_digits
print_digits-ne-nil zero base n out h = ground arith
print_digits-ne-nil (suc f) base n out h = elim (Bool-cases (n / base == 0)) [
  | inl e ↦ rw e (λ z. cc)
  | inr e ↦ rw e (print_digits-ne-nil f base (n / base) _ (inr (λ z. cc)))
]

-- The parts of `stoull` pass over nothing in front of digits.
digit_char-plain :
    (d : ℕ)
    → d < 16
    → (is_space (digit_char d) ≡ false)
      × ((digit_char d == b'-') ≡ false)
      × ((digit_char d == b'+') ≡ false)
      × ((digit_char d == b'x') ≡ false)
      × ((digit_char d == b'X') ≡ false)
unfolding digit_char is_space
digit_char-plain d h = (ground arith, ground arith, ground arith, ground arith, ground arith)

plain :
    (base c : ℕ)
    → base ≤ 16
    → IsDigit base c
    → (is_space c ≡ false)
      × ((c == b'-') ≡ false)
      × ((c == b'+') ≡ false)
      × ((c == b'x') ≡ false)
      × ((c == b'X') ≡ false)
plain base c hi (d, lt, e) = rw e (digit_char-plain d (omega arith))

module _ (base : ℕ) (hi : base ≤ 16) where
  skip_spaces_digits : (s : Bytes) → All (IsDigit base) s → skip_spaces s ≡ s
  unfolding skip_spaces
  skip_spaces_digits [] h = refl
  skip_spaces_digits (c ∷ s) h = rw (plain base c hi h.0).0

  read_sign_digits : (s : Bytes) → All (IsDigit base) s → read_sign s ≡ (false, s)
  unfolding read_sign
  read_sign_digits [] h = refl
  read_sign_digits (c ∷ s) h = rw ((plain base c hi h.0).1, (plain base c hi h.0).2)

  hex_prefix_digits : (s : Bytes) → All (IsDigit base) s → hex_prefix s ≡ none
  unfolding hex_prefix
  hex_prefix_digits [] h = refl
  hex_prefix_digits (c ∷ []) h = refl
  hex_prefix_digits (c ∷ x ∷ s) h =
      ground (arith, (plain base x hi h.1.0).3, (plain base x hi h.1.0).4)

  skip_prefix_digits : (s : Bytes) → All (IsDigit base) s → skip_prefix s ≡ s
  unfolding skip_prefix
  skip_prefix_digits s h = rw (hex_prefix_digits s h, skip_prefix)

  starts_digit_digits : (s : Bytes) → s ≢ [] → All (IsDigit base) s → starts_digit base s ≡ true
  unfolding starts_digit
  starts_digit_digits [] ne h = absurd (ne refl)
  starts_digit_digits (c ∷ s) ne ((d, lt, e), h) =
      rw (e, digit-digit_char base d lt hi, starts_digit)

  bounded_digits :
      (width n : ℕ) (s : Bytes)
      → s ≢ []
      → All (IsDigit base) s
      → read_digits base 0 s ≡ n
      → n < 2 ^ width
      → bounded width (false, s) base ≡ some n
  unfolding bounded
  bounded_digits width n s ne h e lt = rw (starts_digit_digits s ne h, e, lt→ltb n (2 ^ width) lt)

-- A chunk size or a length in 64 bits is read back from its print.
pub stoull-to_string : (n : ℕ) → n < 2 ^ 64 → stoull (to_string n) ≡ some n
unfolding stoull to_string
stoull-to_string n lt =
    let s = print_digits (suc n) 10 n [] in
    let ds = print_digits-IsDigit (suc n) 10 n [] (omega arith) tt in
    rw (skip_spaces_digits 10 (omega arith) s ds, read_sign_digits 10 (omega arith) s ds)
      (bounded_digits 10 (omega arith) 64 n s
        (print_digits-ne-nil (suc n) 10 n [] (inl (omega arith))) ds
        (read_digits-print_digits (suc n) 10 n [] (omega arith) (omega arith) (omega arith)
          ∙ unfold read_digits in refl)
        lt)

pub stoull_hex-format_hex : (n : ℕ) → n < 2 ^ 64 → stoull_hex (format_hex n) ≡ some n
unfolding stoull_hex format_hex
stoull_hex-format_hex n lt =
    let s = print_digits (suc n) 16 n [] in
    let ds = print_digits-IsDigit (suc n) 16 n [] (omega arith) tt in
    rw
      (
        skip_spaces_digits 16 (omega arith) s ds,
        read_sign_digits 16 (omega arith) s ds,
        skip_prefix_digits 16 (omega arith) s ds,
      )
      (bounded_digits 16 (omega arith) 64 n s
        (print_digits-ne-nil (suc n) 16 n [] (inl (omega arith))) ds
        (read_digits-print_digits (suc n) 16 n [] (omega arith) (omega arith) (omega arith)
          ∙ unfold read_digits in refl)
        lt)
