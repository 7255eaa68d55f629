-- ===== src/Platform/Events/Table.antt =====
-- Laws of the table of waiters.
use ccnet_utilities.Common.{
  ℕ, ◌+◌, ◌≡◌, refl, Bool, true, false, Option, none, some, List, [], ◌∷◌, ◌++◌, arith, ◌==◌,
  if◌then◌else◌,
}
use ccnet_utilities.Platform.Events.{Table, Waiter, Handle, lookup, insert, remove}

pub lookup-insert :
    (fd j : ℕ) (w : Waiter) (t : Table)
    → lookup j (insert fd w t) ≡ (if fd == j then some w else lookup j t)
unfolding lookup insert
lookup-insert fd j w [] = ground arith
lookup-insert fd j w ((k, v) ∷ t) = ground (arith, lookup-insert fd j w t)

-- Each descriptor stands once.
abbrev pub IsUnique : Table → Type 0
IsUnique [] = Unit {0}
IsUnique ((k, v) ∷ t) = (lookup k t ≡ none) × IsUnique t

pub lookup-remove :
    (fd j : ℕ) (t : Table)
    → IsUnique t
    → lookup j (remove fd t) ≡ (if fd == j then none else lookup j t)
unfolding lookup remove
lookup-remove fd j [] u = ground arith
lookup-remove fd j ((k, v) ∷ t) u = ground (arith, lookup-remove fd j t u.1)

pub insert-IsUnique : (fd : ℕ) (w : Waiter) (t : Table) → IsUnique t → IsUnique (insert fd w t)
unfolding insert lookup
insert-IsUnique fd w [] u = (refl, tt)
insert-IsUnique fd w ((k, v) ∷ t) u =
    ground (arith, lookup-insert fd k w t, insert-IsUnique fd w t u.1)

pub remove-IsUnique : (fd : ℕ) (t : Table) → IsUnique t → IsUnique (remove fd t)
unfolding remove lookup
remove-IsUnique fd [] u = tt
remove-IsUnique fd ((k, v) ∷ t) u =
    ground (arith, lookup-remove fd k t u.1, remove-IsUnique fd t u.1)

-- How often a handle stands in a list, and waits in a table.
abbrev pub one_if : Bool → ℕ
one_if true = 1
one_if false = 0

unfoldable pub count : Handle → List Handle → ℕ
count h [] = 0
count h (x ∷ xs) = one_if (x == h) + count h xs

unfoldable pub waiting : Handle → Table → ℕ
waiting h [] = 0
waiting h ((k, w) ∷ t) = one_if (w.handle == h) + waiting h t

abbrev pub held : Handle → Option Waiter → ℕ
held h none = 0
held h (some w) = one_if (w.handle == h)

pub count-append : (h : Handle) (xs ys : List Handle) → count h (xs ++ ys) ≡ count h xs + count h ys
unfolding count
count-append h [] ys = omega arith
count-append h (x ∷ xs) ys = omega (arith, count-append h xs ys)

pub waiting-remove :
    (h : Handle) (fd : ℕ) (t : Table) → waiting h (remove fd t) + held h (lookup fd t) ≡ waiting h t
unfolding waiting remove lookup
waiting-remove h fd [] = omega arith
waiting-remove h fd ((k, v) ∷ t) = ground (arith, waiting-remove h fd t)

pub waiting-insert :
    (h : Handle) (fd : ℕ) (w : Waiter) (t : Table)
    → waiting h (insert fd w t) + held h (lookup fd t) ≡ waiting h t + one_if (w.handle == h)
unfolding waiting insert lookup
waiting-insert h fd w [] = omega arith
waiting-insert h fd w ((k, v) ∷ t) = ground (arith, waiting-insert h fd w t)
