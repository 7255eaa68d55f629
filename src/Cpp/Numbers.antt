-- ===== src/Cpp/Numbers.antt =====
-- Numbers: `std::stoull`, `stream >> std::hex >> val`, `std::to_string` and `std::format("{:x}")`.
pub mod RoundTrip
use ccnet_utilities.Common.{ℤ, pos, negsuc}
use ccnet_utilities.Common.{
  ℕ, zero, suc, ◌+◌, ◌-◌, ◌*◌, ◌/◌, ◌%◌, ◌^◌, ◌≤◌, ◌<◌, min, ◌≡◌, refl, sym, ap, ◌∙◌, subst, ◌≢◌,
  ◌↔◌, ◌⊎◌, inl, inr, Bool, true, false, not, ◌&&◌, ◌||◌, Option, none, some, List, [], ◌∷◌, ◌++◌,
  append_assoc, append-nil, arith, dec_lt, dec_le, ltb, leb, ◌==◌, if◌then◌else◌, within,
  Bool-cases, Option-cases, ==_iff, length, take, drop, length-append, length-take, length-drop,
  take-append-drop, All, Bytes, codes, text, equal, equal_iff, find, find_byte, substr,
}
use ccnet_utilities.Cpp.Words.{skip_spaces}
use mathlib.Core.Option

-- The value of a digit, upper or lower case, below the base.
unfoldable pub digit : ℕ → ℕ → Option ℕ
digit base c =
    let d : ℕ =
      if within b'0' b'9' c
      then c - b'0'
      else if within b'a' b'z' c
      then c - b'a' + 10
      else if within b'A' b'Z' c
      then c - b'A' + 10
      else 99 in
    if ltb d base then some d else none

-- The digits at the front, behind `acc`.
unfoldable pub read_digits : ℕ → ℕ → Bytes → ℕ
unfolding digit
read_digits base acc [] = acc
read_digits base acc (c ∷ s) = elim (digit base c) [
  | none ↦ acc
  | some d ↦ read_digits base (acc * base + d) s
]

unfoldable pub starts_digit : ℕ → Bytes → Bool
unfolding digit
starts_digit base [] = false
starts_digit base (c ∷ s) = elim (digit base c) [ none ↦ false | some d ↦ true ]

-- A sign, and what follows it; `true` is a minus.
unfoldable pub read_sign : Bytes → Bool × Bytes
read_sign [] = (false, [])
read_sign (c ∷ s) =
    if c == b'-' then (true, s) else if c == b'+' then (false, s) else (false, c ∷ s)

-- `0x` or `0X` at the front.
unfoldable pub hex_prefix : Bytes → Option Bytes
hex_prefix [] = none
hex_prefix (z ∷ []) = none
hex_prefix (z ∷ x ∷ s) = if z == b'0' && (x == b'x' || x == b'X') then some s else none

-- A magnitude in `width` bits; one that does not fit is an error, and a minus negates it modulo
-- 2 ^ width, as `strtoull` and `operator>>` do for unsigned types.
unfoldable pub bounded : ℕ → Bool × Bytes → ℕ → Option ℕ
unfolding starts_digit read_digits
bounded width (negative, s) base =
    if starts_digit base s
    then (let v = read_digits base 0 s in
        if ltb v (2 ^ width)
        then some (if negative then (2 ^ width - v) % 2 ^ width else v)
        else none)
    else none

-- `strtoull` takes `0x` for a prefix only in front of a digit.
unfoldable pub skip_prefix : Bytes → Bytes
unfolding hex_prefix starts_digit
skip_prefix s = elim (hex_prefix s) [ none ↦ s | some r ↦ if starts_digit 16 r then r else s ]

-- `std::stoull(s)`; `none` where it throws. What follows the digits is ignored.
unfoldable pub stoull : Bytes → Option ℕ
unfolding bounded read_sign skip_spaces
stoull s = bounded 64 (read_sign (skip_spaces s)) 10

-- `std::stoull(s, nullptr, 16)`.
unfoldable pub stoull_hex : Bytes → Option ℕ
unfolding bounded read_sign skip_prefix skip_spaces
stoull_hex s =
    let (negative, r) = read_sign (skip_spaces s) in bounded 64 (negative, skip_prefix r) 16

-- The digits behind the sign; here `0x` is always taken for a prefix.
unfoldable pub hex_value : Bool × Bytes → Option ℕ
unfolding bounded hex_prefix
hex_value (negative, r) = bounded 32 (negative, elim (hex_prefix r) [ none ↦ r | some t ↦ t ]) 16

-- `iss >> std::hex >> val` for an `unsigned int`; `none` where the stream fails.
unfoldable pub extract_hex : Bytes → Option ℕ
unfolding hex_value read_sign skip_spaces
extract_hex s = hex_value (read_sign (skip_spaces s))

-- The character of a digit in lower case.
unfoldable pub digit_char : ℕ → ℕ
digit_char d = if ltb d 10 then b'0' + d else b'a' + (d - 10)

-- The digits of `n` in front of `out`; the fuel is more than `n`.
unfoldable pub print_digits : ℕ → ℕ → ℕ → Bytes → Bytes
unfolding digit_char
print_digits zero base n out = out
print_digits (suc f) base n out =
    let last = digit_char (n % base) ∷ out in
    let more = print_digits f base (n / base) last in if n / base == 0 then last else more

-- `std::to_string(n)`, and `{}` in a format.
unfoldable pub to_string : ℕ → Bytes
unfolding print_digits
to_string n = print_digits (suc n) 10 n []

-- `{:x}` in a format.
unfoldable pub format_hex : ℕ → Bytes
unfolding print_digits
format_hex n = print_digits (suc n) 16 n []

hex_255 : format_hex 255 ≡ codes "ff"
unfolding format_hex
hex_255 = refl

odd_spellings :
    (extract_hex (codes "1Z") ≡ some 1)
    × (extract_hex (codes " a") ≡ some 10)
    × (extract_hex (codes "-1") ≡ some (2 ^ 32 - 1))
    × (extract_hex (codes "0x") ≡ none)
    × (stoull_hex (codes "0x") ≡ some 0)
    × (stoull (codes "-1") ≡ some (2 ^ 64 - 1))
    × (stoull (codes "18446744073709551616") ≡ none)
unfolding extract_hex stoull stoull_hex
odd_spellings = (refl, refl, refl, refl, refl, refl, refl)

-- `std::format("{}", n)` and `stream << n` of an `int`.
unfoldable pub int_to_string : ℤ → Bytes
int_to_string (pos n) = to_string n
int_to_string (negsuc n) = b'-' ∷ to_string (suc n)
