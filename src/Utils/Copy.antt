-- ===== src/Utils/Copy.antt =====
-- library/utils/copy_helpers.hpp: `trim_copy` and `to_lower_copy`, in the "C" locale.
pub mod Trim
pub mod Tight
use ccnet_utilities.Common.{
  ℕ, zero, suc, ◌+◌, ◌-◌, Bool, ◌||◌, [], ◌∷◌, ◌==◌, if◌then◌else◌, within, length, substr, Bytes,
}
use mathlib.Core.List.{map}

-- `std::isspace`.
unfoldable pub is_space : ℕ → Bool
is_space c = within b'\t' 13 c || c == b' '

-- `std::tolower`.
unfoldable pub to_lower : ℕ → ℕ
to_lower c = if within b'A' b'Z' c then c + 32 else c

-- `s[i]`; it is read within the string only.
abbrev pub byte_at : Bytes → ℕ → ℕ
byte_at [] i = 0
byte_at (c ∷ s) zero = c
byte_at (c ∷ s) (suc i) = byte_at s i

-- The first loop, from `a` with `n` rounds left: `n` is `b - a`. It returns the last `a`.
unfoldable pub trim_front : Bytes → ℕ → ℕ → ℕ
trim_front s a zero = a
trim_front s a (suc n) =
    let next = trim_front s (a + 1) n in if is_space (byte_at s a) then next else a

-- The second loop, where `b` is `a + n`. It returns the last `b - a`.
unfoldable pub trim_back : Bytes → ℕ → ℕ → ℕ
trim_back s a zero = 0
trim_back s a (suc n) =
    let next = trim_back s a n in if is_space (byte_at s (a + n)) then next else suc n

unfoldable pub trim_copy : Bytes → Bytes
unfolding trim_front trim_back is_space
trim_copy s =
    let a = trim_front s 0 (length s) in let n = trim_back s a (length s - a) in substr s a n

unfoldable pub to_lower_copy : Bytes → Bytes
unfolding to_lower
to_lower_copy s = map to_lower s
