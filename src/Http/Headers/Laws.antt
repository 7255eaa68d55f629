-- ===== src/Http/Headers/Laws.antt =====
-- Laws of the header map.
use ccnet_utilities.Common.{
  if◌then◌else◌, ◌*◌, ◌+◌, ◌%◌, ◌^◌, ◌≡◌, true, [], ◌∷◌, refl, arith, Bytes, List, none, ℕ, some,
  ◌↔◌,
}
use ccnet_utilities.Http.Headers.{
  case_insensitive_eq, get, set, erase_item, case_insensitive_hash, Headers, assign, hash_from,
  find_item, erase, to_lower,
}
use ccnet_utilities.Utils.Copy.{to_lower_copy}

-- Equal keys are the keys with one lower-case copy.
case_insensitive_eq-to :
    (a b : Bytes) → case_insensitive_eq a b ≡ true → to_lower_copy a ≡ to_lower_copy b
unfolding case_insensitive_eq to_lower_copy
case_insensitive_eq-to [] [] h = refl
case_insensitive_eq-to [] (b ∷ t) h = cc
case_insensitive_eq-to (a ∷ s) [] h = cc
case_insensitive_eq-to (a ∷ s) (b ∷ t) h = ground (arith, case_insensitive_eq-to s t)

case_insensitive_eq-from :
    (a b : Bytes) → to_lower_copy a ≡ to_lower_copy b → case_insensitive_eq a b ≡ true
unfolding case_insensitive_eq to_lower_copy
case_insensitive_eq-from [] [] h = refl
case_insensitive_eq-from [] (b ∷ t) h = cc
case_insensitive_eq-from (a ∷ s) [] h = cc
case_insensitive_eq-from (a ∷ s) (b ∷ t) h = ground (arith, case_insensitive_eq-from s t)

case_insensitive_eq_iff :
    (a b : Bytes) → (case_insensitive_eq a b ≡ true) ↔ (to_lower_copy a ≡ to_lower_copy b)
case_insensitive_eq_iff a b = (case_insensitive_eq-to a b, case_insensitive_eq-from a b)

hash_from-eq :
    (a b : Bytes) (h : ℕ) → to_lower_copy a ≡ to_lower_copy b → hash_from h a ≡ hash_from h b
unfolding hash_from to_lower_copy
hash_from-eq [] [] h e = refl
hash_from-eq [] (b ∷ t) h e = cc
hash_from-eq (a ∷ s) [] h e = cc
hash_from-eq (a ∷ s) (b ∷ t) h e =
    let same : to_lower a ≡ to_lower b = cc in
    rw same (hash_from-eq s t ((h * 131 + to_lower b) % 2 ^ 64) (cc))

-- Keys that `CaseInsensitiveEq` holds equal have one hash, which is what the `unordered_map` needs
-- of the pair.
pub case_insensitive_hash-eq :
    (a b : Bytes)
    → case_insensitive_eq a b ≡ true
    → case_insensitive_hash a ≡ case_insensitive_hash b
unfolding case_insensitive_hash
case_insensitive_hash-eq a b h = hash_from-eq a b 0 (case_insensitive_eq-to a b h)

find_item-assign :
    (k j v : Bytes) (m : List (Bytes × Bytes))
    → find_item j (assign k v m) ≡ (if case_insensitive_eq k j then some v else find_item j m)
unfolding find_item assign
find_item-assign k j v [] = refl
find_item-assign k j v ((i, w) ∷ m) = ground (
  arith,
  case_insensitive_eq_iff k j,
  case_insensitive_eq_iff i k,
  case_insensitive_eq_iff i j,
  find_item-assign k j v m,
)

-- `get` after `set` finds the new value under every spelling of the key, and what it found before
-- under any other key.
pub get-set :
    (h : Headers) (k j v : Bytes)
    → get (set h k v) j ≡ (if case_insensitive_eq k j then some v else get h j)
unfolding get set
get-set h k j v = find_item-assign k j v h.items

-- Keys that differ up to case, as in the `unordered_map`.
abbrev pub Unique : List (Bytes × Bytes) → Type 0
Unique [] = Unit {0}
Unique ((k, v) ∷ m) = (find_item k m ≡ none) × Unique m

abbrev pub IsWellFormed : Headers → Type 0
IsWellFormed h = Unique h.items

pub find_item-eq :
    (k j : Bytes) (m : List (Bytes × Bytes))
    → case_insensitive_eq k j ≡ true
    → find_item k m ≡ find_item j m
unfolding find_item
find_item-eq k j [] h = refl
find_item-eq k j ((i, w) ∷ m) h = ground (
  arith,
  case_insensitive_eq_iff k j,
  case_insensitive_eq_iff i k,
  case_insensitive_eq_iff i j,
  find_item-eq k j m h,
)

find_item-erase_item :
    (k j : Bytes) (m : List (Bytes × Bytes))
    → Unique m
    → find_item j (erase_item k m) ≡ (if case_insensitive_eq k j then none else find_item j m)
unfolding find_item erase_item
find_item-erase_item k j [] u = ground arith
find_item-erase_item k j ((i, w) ∷ m) u = ground (
  arith,
  case_insensitive_eq_iff k j,
  case_insensitive_eq_iff i k,
  case_insensitive_eq_iff i j,
  find_item-eq i j m,
  find_item-erase_item k j m u.1,
)

-- In headers that hold each key once, up to case, `erase` removes the key under every spelling, and
-- the other keys keep their values.
pub get-erase :
    (h : Headers) (k j : Bytes)
    → IsWellFormed h
    → get (erase h k) j ≡ (if case_insensitive_eq k j then none else get h j)
unfolding get erase
get-erase h k j u = find_item-erase_item k j h.items u

assign-Unique : (k v : Bytes) (m : List (Bytes × Bytes)) → Unique m → Unique (assign k v m)
unfolding assign find_item
assign-Unique k v [] u = (refl, tt)
assign-Unique k v ((i, w) ∷ m) u = ground (
  arith,
  find_item-assign k i v m,
  case_insensitive_eq_iff i k,
  case_insensitive_eq_iff k i,
  assign-Unique k v m u.1,
)

erase_item-Unique : (k : Bytes) (m : List (Bytes × Bytes)) → Unique m → Unique (erase_item k m)
unfolding erase_item find_item
erase_item-Unique k [] u = tt
erase_item-Unique k ((i, w) ∷ m) u =
    ground (arith, find_item-erase_item k i m u.1, erase_item-Unique k m u.1)

-- `set` and `erase` keep each key at most once, up to case.
pub set-erase-IsWellFormed :
    (h : Headers) (k v : Bytes)
    → IsWellFormed h
    → IsWellFormed (set h k v) × IsWellFormed (erase h k)
unfolding set erase
set-erase-IsWellFormed h k v u = (assign-Unique k v h.items u, erase_item-Unique k h.items u)
