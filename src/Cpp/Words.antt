-- ===== src/Cpp/Words.antt =====
-- `stream >> word` on an `istringstream`: spaces are skipped, and a word ends before a space.
use ccnet_utilities.Common.{
  ℕ, ◌≡◌, refl, ◌≢◌, false, Option, none, some, [], ◌∷◌, ◌++◌, arith, if◌then◌else◌, All, Bytes,
}
use ccnet_utilities.Utils.Copy.{is_space}

unfoldable pub skip_spaces : Bytes → Bytes
unfolding is_space
skip_spaces [] = []
skip_spaces (c ∷ s) = if is_space c then skip_spaces s else c ∷ s

-- The longest prefix with no space.
unfoldable pub word_of : Bytes → Bytes
unfolding is_space
word_of [] = []
word_of (c ∷ s) = if is_space c then [] else c ∷ word_of s

unfoldable pub after_word : Bytes → Bytes
unfolding is_space
after_word [] = []
after_word (c ∷ s) = if is_space c then c ∷ s else after_word s

-- The word and what is left; `none` where the extraction fails, with no word left.
unfoldable pub next_word : Bytes → Option (Bytes × Bytes)
unfolding skip_spaces word_of after_word
next_word s = elim (skip_spaces s) [
  | [] ↦ none
  | c ∷ r ↦ some (word_of (c ∷ r), after_word (c ∷ r))
]

abbrev pub NoSpaces : Bytes → Type 0
NoSpaces = All (λ c. is_space c ≡ false)

-- A word in front of a space, or at the end, is read whole.
word_of-append :
    (w r : Bytes)
    → NoSpaces w
    → (word_of (w ++ b' ' ∷ r) ≡ w) × (after_word (w ++ b' ' ∷ r) ≡ b' ' ∷ r)
unfolding word_of after_word is_space
word_of-append [] r h = (refl, refl)
word_of-append (c ∷ w) r h = ground (arith, word_of-append w r h.1)

word_of_all : (w : Bytes) → NoSpaces w → (word_of w ≡ w) × (after_word w ≡ [])
unfolding word_of after_word
word_of_all [] h = (refl, refl)
word_of_all (c ∷ w) h = ground (arith, word_of_all w h.1)

skip_spaces-NoSpaces : (w r : Bytes) → w ≢ [] → NoSpaces w → skip_spaces (w ++ r) ≡ w ++ r
unfolding skip_spaces
skip_spaces-NoSpaces [] r ne h = absurd (ne refl)
skip_spaces-NoSpaces (c ∷ w) r ne h = ground arith

pub next_word-append :
    (w r : Bytes) → w ≢ [] → NoSpaces w → next_word (w ++ b' ' ∷ r) ≡ some (w, b' ' ∷ r)
unfolding next_word
next_word-append [] r ne h = absurd (ne refl)
next_word-append (c ∷ w) r ne h =
    rw (skip_spaces-NoSpaces (c ∷ w) (b' ' ∷ r) ne h, next_word)
      (ground (arith, word_of-append (c ∷ w) r h))

pub next_word_all : (w : Bytes) → w ≢ [] → NoSpaces w → next_word w ≡ some (w, [])
unfolding next_word
next_word_all [] ne h = absurd (ne refl)
next_word_all (c ∷ w) ne h =
    rw (skip_cons c w h.0, next_word) (ground (arith, word_of_all (c ∷ w) h))
  where
    skip_cons : (c : ℕ) (w : Bytes) → is_space c ≡ false → skip_spaces (c ∷ w) ≡ c ∷ w
    skip_cons c w h = unfold skip_spaces in ground arith

-- A space in front of a word is skipped.
pub next_word_space : (s : Bytes) → next_word (b' ' ∷ s) ≡ next_word s
unfolding next_word skip_spaces is_space
next_word_space s = refl
