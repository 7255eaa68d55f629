-- ===== src/Http/JsonForm/Paths.antt =====
-- How the keys of a form name the values within a JSON value, and the texts of these. This is no code
-- of the sources: it is what `json_to_multimap` is to do.
use ccnet_utilities.Common.{ℕ, ◌≡◌, refl, true, false, List, [], ◌∷◌, ◌++◌, Bytes, codes}
use ccnet_utilities.Cpp.Numbers.{to_string}
use ccnet_utilities.Http.JsonForm.{
  object, array, string, boolean, number, null, binary, Tried, value, JsonLib, make_key, index_key,
  member_text, element_text, View,
}

-- A step on the way to a value: a member of an object, or an element of the outermost array.
pub data Step : Type 0 where
  member : Bytes → Step
  element : ℕ → Step

-- A path as forms write it, `a.b` and `a[0]`, with no dot or bracket behind an empty path.
unfoldable pub step : Bytes → Step → Bytes
step [] (member k) = k
step [] (element i) = to_string i
step (c ∷ s) (member k) = c ∷ (s ++ (b'.' ∷ k))
step (c ∷ s) (element i) = c ∷ (s ++ (b'[' ∷ (to_string i ++ b']' ∷ [])))

unfoldable pub spell : Bytes → List Step → Bytes
spell front [] = front
spell front (x ∷ xs) = spell (step front x) xs

pub spell-snoc :
    (front : Bytes) (xs : List Step) (x : Step)
    → spell front (xs ++ x ∷ []) ≡ step (spell front xs) x
unfolding spell
spell-snoc front [] x = refl
spell-snoc front (y ∷ xs) x = spell-snoc (step front y) xs x

pub make_key-step : (front k : Bytes) → make_key front k ≡ step front (member k)
unfolding make_key step
make_key-step [] k = refl
make_key-step (c ∷ s) k = refl

pub index_key-step : (front : Bytes) (i : ℕ) → index_key front i ≡ step front (element i)
unfolding index_key step
index_key-step [] i = refl
index_key-step (c ∷ s) i = refl

-- Where a value stands.
pub data Place : Type 0 where
  in_object outermost : Place

module _ (lib : JsonLib) where
  -- The text of a value by its kind. Within an object `null` gives no text.
  abbrev pub text_of : Place → View lib.Json → lib.Json → Tried Bytes
  text_of _ (string s) j = value s
  text_of _ (boolean true) j = value (codes "true")
  text_of _ (boolean false) j = value (codes "false")
  text_of _ number j = lib.print j
  text_of in_object null j = value []
  text_of outermost null j = lib.print j
  text_of in_object binary j = lib.dump j
  text_of outermost binary j = lib.print j
  text_of _ (object items) j = lib.dump j
  text_of _ (array elems) j = lib.dump j

  unfoldable pub text_at : Place → lib.Json → Tried Bytes
  text_at place j = text_of place (lib.view j) j

  pub member_text-text_at : (j : lib.Json) → member_text lib j ≡ text_at in_object j
  unfolding member_text text_at
  member_text-text_at j = by_view (lib.view j) refl
    where
      by_view :
          (v : View lib.Json)
          → lib.view j ≡ v
          → member_text lib j ≡ text_of in_object (lib.view j) j
      by_view (string s) e = rw (e, member_text) refl
      by_view (boolean true) e = rw (e, member_text) refl
      by_view (boolean false) e = rw (e, member_text) refl
      by_view number e = rw (e, member_text) refl
      by_view null e = rw (e, member_text) refl
      by_view binary e = rw (e, member_text) refl
      by_view (object items) e = rw (e, member_text) refl
      by_view (array elems) e = rw (e, member_text) refl

  pub element_text-text_at : (j : lib.Json) → element_text lib j ≡ text_at outermost j
  unfolding element_text text_at
  element_text-text_at j = by_view (lib.view j) refl
    where
      by_view :
          (v : View lib.Json)
          → lib.view j ≡ v
          → element_text lib j ≡ text_of outermost (lib.view j) j
      by_view (string s) e = rw (e, element_text) refl
      by_view (boolean true) e = rw (e, element_text) refl
      by_view (boolean false) e = rw (e, element_text) refl
      by_view number e = rw (e, element_text) refl
      by_view null e = rw (e, element_text) refl
      by_view binary e = rw (e, element_text) refl
      by_view (object items) e = rw (e, element_text) refl
      by_view (array elems) e = rw (e, element_text) refl
