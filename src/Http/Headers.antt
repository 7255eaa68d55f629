-- ===== src/Http/Headers.antt =====
-- library/http/http_headers.hpp. The `unordered_map` is an association list: a key stands in it
-- once up to `CaseInsensitiveEq`, and keeps the spelling of the call that brought it in. The order
-- in which the map is walked is not this list's: see `Http.Response`.
pub mod Laws
use ccnet_utilities.Common.{
  ℕ, ◌+◌, ◌*◌, ◌%◌, ◌^◌, Bool, true, false, ◌&&◌, List, [], ◌∷◌, Option, none, some, ◌==◌,
  if◌then◌else◌, Bytes,
}
use ccnet_utilities.Utils.Copy.{to_lower}

-- `h * 131 + tolower(c)` in `size_t`.
unfoldable pub hash_from : ℕ → Bytes → ℕ
hash_from h [] = h
hash_from h (c ∷ s) = hash_from ((h * 131 + to_lower c) % 2 ^ 64) s

unfoldable pub case_insensitive_hash : Bytes → ℕ
unfolding hash_from to_lower
case_insensitive_hash s = hash_from 0 s

unfoldable pub case_insensitive_eq : Bytes → Bytes → Bool
unfolding to_lower
case_insensitive_eq [] [] = true
case_insensitive_eq (a ∷ s) (b ∷ t) = to_lower a == to_lower b && case_insensitive_eq s t
case_insensitive_eq _ _ = false

pub record Headers : Type 0 where
  pub items : List (Bytes × Bytes)

-- `items[key] = val`.
unfoldable pub assign : Bytes → Bytes → List (Bytes × Bytes) → List (Bytes × Bytes)
unfolding case_insensitive_eq
assign key val [] = (key, val) ∷ []
assign key val ((k, v) ∷ rest) =
    if case_insensitive_eq k key then (k, val) ∷ rest else (k, v) ∷ assign key val rest

-- `items.find(key)`.
unfoldable pub find_item : Bytes → List (Bytes × Bytes) → Option Bytes
unfolding case_insensitive_eq
find_item key [] = none
find_item key ((k, v) ∷ rest) = if case_insensitive_eq k key then some v else find_item key rest

-- `items.erase(key)`.
unfoldable pub erase_item : Bytes → List (Bytes × Bytes) → List (Bytes × Bytes)
unfolding case_insensitive_eq
erase_item key [] = []
erase_item key ((k, v) ∷ rest) =
    if case_insensitive_eq k key then rest else (k, v) ∷ erase_item key rest

abbrev pub empty : Headers
empty = record { items = [] }

unfoldable pub set : Headers → Bytes → Bytes → Headers
unfolding assign
set h key val = record { items = assign key val h.items }

unfoldable pub get : Headers → Bytes → Option Bytes
unfolding find_item
get h key = find_item key h.items

unfoldable pub erase : Headers → Bytes → Headers
unfolding erase_item
erase h key = record { items = erase_item key h.items }

unfoldable pub has : Headers → Bytes → Bool
unfolding find_item
has h key = elim (find_item key h.items) [ none ↦ false | some v ↦ true ]
