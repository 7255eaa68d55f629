-- ===== src/Common/Text.antt =====
-- Byte strings (`std::string`, `std::string_view`) and the members of them that the sources call.
use Prim.Native.Char.{code}
use Prim.Native.Nat.{ℕ, suc, ◌+◌, ◌≤◌}
use Prim.Native.String.{String}
use ccnet_utilities.Common.Lists.{length-append, drop_at, length, take, drop, All}
use ccnet_utilities.Common.Tests.{Option-cases, ltb, ◌==◌, ==_iff, if◌then◌else◌, Bool-cases}
use mathlib.Core.Bool.{Bool, true, false, ◌&&◌}
use mathlib.Core.List.{List, [], ◌∷◌, ◌++◌, append_assoc}
use mathlib.Core.Logic.{◌≢◌, ◌↔◌, ◌⊎◌, inl, inr}
use mathlib.Core.Option
use mathlib.Core.Option.{Option, none, some, some-injective}
use mathlib.Core.Path.{◌≡◌, refl, ap, sym, ◌∙◌}
use native.Mathlib.Omega.{arith}

abbrev pub Bytes : Type 0
Bytes = List ℕ

-- The code points of a literal; every literal of the sources is ASCII.
abbrev pub codes : String → Bytes
codes String.[] = []
codes (String.◌∷◌ c s) = code c ∷ codes s

-- The text of a message, kept folded: no proof looks into it.
unfoldable pub text : String → Bytes
text s = codes s

-- `a == b` on strings.
unfoldable pub equal : Bytes → Bytes → Bool
equal [] [] = true
equal [] (c ∷ t) = false
equal (c ∷ s) [] = false
equal (c ∷ s) (d ∷ t) = c == d && equal s t

unfoldable pub is_prefix : Bytes → Bytes → Bool
is_prefix [] s = true
is_prefix (a ∷ w) [] = false
is_prefix (a ∷ w) (b ∷ s) = a == b && is_prefix w s

-- `s.find(w)`; `npos` is `none`.
unfoldable pub find : Bytes → Bytes → Option ℕ
unfolding is_prefix
find [] w = if is_prefix w [] then some 0 else none
find (c ∷ s) w = if is_prefix w (c ∷ s) then some 0 else Option.map suc (find s w)

-- `s.find(w, pos)`.
unfoldable pub find_from : Bytes → Bytes → ℕ → Option ℕ
unfolding find
find_from s w pos =
    if ltb (length s) pos then none else Option.map (λ i. pos + i) (find (drop pos s) w)

-- `s.find(c)` for a character.
unfoldable pub find_byte : Bytes → ℕ → Option ℕ
find_byte [] b = none
find_byte (c ∷ s) b = if c == b then some 0 else Option.map suc (find_byte s b)

-- `s.find(c, pos)` for a character.
unfoldable pub find_byte_from : Bytes → ℕ → ℕ → Option ℕ
unfolding find_byte
find_byte_from s b pos = Option.map (λ i. pos + i) (find_byte (drop pos s) b)

-- `s.substr(pos, n)`, for `pos` within the string, as at each call.
abbrev pub substr : Bytes → ℕ → ℕ → Bytes
substr s pos n = take n (drop pos s)

pub equal_iff : (s t : Bytes) → (equal s t ≡ true) ↔ (s ≡ t)
unfolding equal
equal_iff [] [] = ground arith
equal_iff [] (c ∷ t) = ground arith
equal_iff (c ∷ s) [] = ground arith
equal_iff (c ∷ s) (d ∷ t) = ground (arith, equal_iff s t)

abbrev pub Lacks : ℕ → Bytes → Type 0
Lacks b = All (λ c. c ≢ b)

-- `find_byte` splits the string at the first `b`, or there is none.
abbrev pub FindByte : Bytes → ℕ → Option ℕ → Type 0
FindByte s b o =
    ((o ≡ none) × Lacks b s)
    ⊎ ((p : Bytes) × (r : Bytes) × (s ≡ p ++ b ∷ r) × Lacks b p × (o ≡ some (length p)))

FindByte-cons :
    (c b : ℕ) (s : Bytes)
    → c ≢ b
    → FindByte s b (find_byte s b)
    → FindByte (c ∷ s) b (find_byte (c ∷ s) b)
unfolding find_byte
FindByte-cons c b s ne (inl (e, h)) = inl (ground arith, (ne, h))
FindByte-cons c b s ne (inr (p, r, e, h, f)) = inr (c ∷ p, r, ap (◌∷◌ c) e, (ne, h), ground arith)

pub find_byte-cases : (s : Bytes) (b : ℕ) → FindByte s b (find_byte s b)
find_byte-cases [] b = inl (unfold find_byte in refl, tt)
find_byte-cases (c ∷ s) b = elim (Bool-cases (c == b)) [
  | inl e ↦ inr ([], s, ap (λ x. x ∷ s) ((==_iff c b).0 e), tt, unfold find_byte in rw e)
  | inr e ↦ FindByte-cons c b s (λ h. ground arith) (find_byte-cases s b)
]

pub find_byte-Lacks : (s : Bytes) (b : ℕ) → Lacks b s → find_byte s b ≡ none
unfolding find_byte
find_byte-Lacks [] b h = refl
find_byte-Lacks (c ∷ s) b h = ground (arith, find_byte-Lacks s b h.1)

pub find_byte-append :
    (p s : Bytes) (b : ℕ) → Lacks b p → find_byte (p ++ b ∷ s) b ≡ some (length p)
unfolding find_byte
find_byte-append [] s b h = ground arith
find_byte-append (c ∷ p) s b h = ground (arith, find_byte-append p s b h.1)

pub find_byte-append_Lacks :
    (p s : Bytes) (b : ℕ)
    → Lacks b p
    → find_byte (p ++ s) b ≡ Option.map (λ i. length p + i) (find_byte s b)
unfolding find_byte
find_byte-append_Lacks [] s b h = shift_zero (find_byte s b)
  where
    shift_zero : (o : Option ℕ) → o ≡ Option.map (λ i. 0 + i) o
    shift_zero none = refl
    shift_zero (some i) = ap some (omega arith)
find_byte-append_Lacks (c ∷ p) s b h =
    ground (arith, find_byte-append_Lacks p s b h.1, Option-cases (find_byte s b))

pub find_byte_from-append :
    (pre s : Bytes) (b : ℕ)
    → find_byte_from (pre ++ s) b (length pre) ≡ Option.map (λ i. length pre + i) (find_byte s b)
unfolding find_byte_from
find_byte_from-append pre s b = rw (drop_at (length pre) pre s refl)

-- Facts about `find`: `w` occurs nowhere in `s`; it does not begin within `p` where `t` follows.
abbrev pub Absent : Bytes → Bytes → Type 0
Absent w [] = is_prefix w [] ≡ false
Absent w (c ∷ s) = (is_prefix w (c ∷ s) ≡ false) × Absent w s

abbrev pub NoEarlier : Bytes → Bytes → Bytes → Type 0
NoEarlier w [] t = Unit {0}
NoEarlier w (c ∷ p) t = (is_prefix w (c ∷ p ++ t) ≡ false) × NoEarlier w p t

pub is_prefix-true : (w s : Bytes) → is_prefix w s ≡ true → (r : Bytes) × (s ≡ w ++ r)
unfolding is_prefix
is_prefix-true [] s h = (s, refl)
is_prefix-true (a ∷ w) [] h = cc
is_prefix-true (a ∷ w) (b ∷ s) h = elim (Bool-cases (a == b)) [
  | inl e ↦ let (r, q) = is_prefix-true w s (rw e at h) in (r, ground (arith, q))
  | inr e ↦ let bad : false ≡ true = rw e at h in cc
]

pub is_prefix-append : (w r : Bytes) → is_prefix w (w ++ r) ≡ true
unfolding is_prefix
is_prefix-append [] r = refl
is_prefix-append (a ∷ w) r = ground (arith, is_prefix-append w r)

abbrev pub Find : Bytes → Bytes → Option ℕ → Type 0
Find s w o =
    ((o ≡ none) × Absent w s)
    ⊎ ((p : Bytes) × (r : Bytes) × (s ≡ p ++ (w ++ r))
        × NoEarlier w p (w ++ r)
        × (o ≡ some (length p)))

Find-cons :
    (c : ℕ) (s w : Bytes)
    → is_prefix w (c ∷ s) ≡ false
    → Find s w (find s w)
    → Find (c ∷ s) w (find (c ∷ s) w)
unfolding find
Find-cons c s w n (inl (e, h)) = inl (rw (n, e), (n, h))
Find-cons c s w n (inr (p, r, e, h, f)) = inr (c ∷ p, r, ap (◌∷◌ c) e, (rw e at n, h), rw (n, f))

pub find-cases : (s w : Bytes) → Find s w (find s w)
find-cases [] w = elim (Bool-cases (is_prefix w [])) [
  | inl e ↦ let (r, q) = is_prefix-true w [] e in inr ([], r, q, tt, unfold find in rw e)
  | inr e ↦ inl (unfold find in rw e, e)
]
find-cases (c ∷ s) w = elim (Bool-cases (is_prefix w (c ∷ s))) [
  | inl e ↦ let (r, q) = is_prefix-true w (c ∷ s) e in inr ([], r, q, tt, unfold find in rw e)
  | inr e ↦ Find-cons c s w e (find-cases s w)
]

pub find-NoEarlier :
    (p w r : Bytes) → NoEarlier w p (w ++ r) → find (p ++ (w ++ r)) w ≡ some (length p)
unfolding find
find-NoEarlier [] [] [] h = refl
find-NoEarlier [] [] (c ∷ r) h = refl
find-NoEarlier [] (a ∷ w) r h = rw (is_prefix-append (a ∷ w) r)
find-NoEarlier (c ∷ p) w r h = rw (h.0, find-NoEarlier p w r h.1)

-- Where the string begins with the first occurrence, what follows it does not matter.
is_prefix-append_right : (w s t : Bytes) → is_prefix w s ≡ true → is_prefix w (s ++ t) ≡ true
is_prefix-append_right w s t h =
    let (r, e) = is_prefix-true w s h in rw (e, append_assoc w r t) (is_prefix-append w (r ++ t))

is_prefix-short : (w s t : Bytes) → length w ≤ length s → is_prefix w (s ++ t) ≡ is_prefix w s
unfolding is_prefix
is_prefix-short [] s t h = refl
is_prefix-short (a ∷ w) [] t h = absurd (omega arith)
is_prefix-short (a ∷ w) (b ∷ s) t h = ap (λ x. a == b && x) (is_prefix-short w s t (omega arith))

pub find-some_le : (s w : Bytes) (i : ℕ) → find s w ≡ some i → i + length w ≤ length s
find-some_le s w i h = elim (find-cases s w) [
  | inl (e, a) ↦ absurd (none-some e h)
  | inr (p, r, e, n, f) ↦
      let same : length p ≡ i = cc in
      omega (arith, ap length e, length-append p (w ++ r), length-append w r)
]
  where
    none-some : {o : Option ℕ} → o ≡ none → o ≡ some i → ⊥
    none-some x y = cc

NoEarlier-append : (w p r t : Bytes) → NoEarlier w p (w ++ r) → NoEarlier w p (w ++ (r ++ t))
NoEarlier-append w [] r t h = tt
NoEarlier-append w (c ∷ p) r t h =
    let long : length w ≤ length (c ∷ p ++ (w ++ r)) =
      omega (arith, length-append p (w ++ r), length-append w r) in
    let whole : (c ∷ p ++ (w ++ r)) ++ t ≡ c ∷ p ++ (w ++ (r ++ t)) = simp append_assoc in
    (rw (← whole, is_prefix-short w (c ∷ p ++ (w ++ r)) t long) h.0, NoEarlier-append w p r t h.1)

-- What stands behind the first occurrence does not matter.
pub find-append : (s t w : Bytes) (i : ℕ) → find s w ≡ some i → find (s ++ t) w ≡ some i
find-append s t w i h = elim (find-cases s w) [
  | inl (e, a) ↦ absurd (none-some e h)
  | inr (p, r, e, n, f) ↦
      let same : length p ≡ i = cc in
      let whole : s ++ t ≡ p ++ (w ++ (r ++ t)) = rw e (simp append_assoc) in
      rw (whole, find-NoEarlier p w (r ++ t) (NoEarlier-append w p r t n), same)
]
  where
    none-some : {o : Option ℕ} → o ≡ none → o ≡ some i → ⊥
    none-some x y = cc

-- A string of two characters does not begin within text that lacks its first.
pub NoEarlier-Lacks : (a b : ℕ) (p r : Bytes) → Lacks a p → NoEarlier (a ∷ b ∷ []) p r
unfolding is_prefix
NoEarlier-Lacks a b [] r h = tt
NoEarlier-Lacks a b (c ∷ p) r h = (ground arith, NoEarlier-Lacks a b p r h.1)

pub find-Lacks :
    (a b : ℕ) (p r : Bytes) → Lacks a p → find (p ++ a ∷ b ∷ r) (a ∷ b ∷ []) ≡ some (length p)
find-Lacks a b p r h = find-NoEarlier p (a ∷ b ∷ []) r (NoEarlier-Lacks a b p _ h)

map-suc-some :
    (o : Option ℕ) (i : ℕ) → Option.map suc o ≡ some i → (j : ℕ) × (o ≡ some j) × (i ≡ suc j)
map-suc-some none i e = absurd cc
map-suc-some (some j) i e = (j, refl, sym some-inj)
  where
    some-inj : suc j ≡ i
    some-inj = cc e

-- An occurrence that ends within the front is found there.
pub find-front :
    (s t w : Bytes) (i : ℕ) → find (s ++ t) w ≡ some i → i + length w ≤ length s → find s w ≡ some i
unfolding find
find-front [] t [] i e h = let zero_at : i ≡ 0 = omega arith in rw zero_at refl
find-front [] t (a ∷ w) i e h = absurd (omega arith)
find-front (c ∷ s) t w i e h =
    let same : is_prefix w (c ∷ (s ++ t)) ≡ is_prefix w (c ∷ s) =
      is_prefix-short w (c ∷ s) t (omega arith) in
    elim (Bool-cases (is_prefix w (c ∷ s))) [
      | inl here ↦
          let there : is_prefix w (c ∷ (s ++ t)) ≡ true = same ∙ here in
          let e' : some 0 ≡ some i = rw there at e in rw here e'
      | inr later ↦
          let there : is_prefix w (c ∷ (s ++ t)) ≡ false = same ∙ later in
          let e' : Option.map suc (find (s ++ t) w) ≡ some i = rw there at e in
          let (j, found, next) = map-suc-some (find (s ++ t) w) i e' in
          let ih : find s w ≡ some j = find-front s t w j found (omega (arith, next)) in
          rw (later, ih) (ap some (sym next))
    ]
