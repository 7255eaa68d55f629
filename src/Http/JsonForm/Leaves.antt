-- ===== src/Http/JsonForm/Leaves.antt =====
-- The map that `json_to_multimap` fills, as a list of pairs.
use ccnet_utilities.Http.JsonForm.Paths.{
  Step, member, element, spell, spell-snoc, make_key-step, index_key-step, in_object, outermost,
  text_at, member_text-text_at, element_text-text_at,
}
use ccnet_utilities.Common.{ℕ, zero, suc, ◌≡◌, refl, sym, ap, ◌∙◌, List, [], ◌∷◌, ◌++◌, Bytes}
use ccnet_utilities.Http.QueryMap.{QueryMap, push}
use ccnet_utilities.Http.JsonForm.{
  object, array, string, boolean, number, null, binary, Tried, value, raised, starved, try_then,
  JsonLib, make_key, index_key, member_text, element_text, push_text, push_members, push_elements,
  push_items, json_to_multimap, push_member, View,
}

abbrev pub Pairs : Type 0
Pairs = List (Bytes × Bytes)

-- The pairs, pushed one after the other.
unfoldable pub push_all : Pairs → QueryMap → QueryMap
push_all [] m = m
push_all ((k, v) ∷ ps) m = push_all ps (push m k v)

push_all-append :
    (ps qs : Pairs) (m : QueryMap) → push_all (ps ++ qs) m ≡ push_all qs (push_all ps m)
unfolding push_all
push_all-append [] qs m = refl
push_all-append ((k, v) ∷ ps) qs m = push_all-append ps qs (push m k v)

-- `a` and then `b`, where both end.
abbrev pub joined : Tried Pairs → Tried Pairs → Tried Pairs
joined a b = try_then a (λ ps. try_then b (λ qs. value (ps ++ qs)))

abbrev pub pair_of : Bytes → Tried Bytes → Tried Pairs
pair_of key t = try_then t (λ s. value ((key, s) ∷ []))

abbrev pub push_tried : Tried Pairs → QueryMap → Tried QueryMap
push_tried t m = try_then t (λ ps. value (push_all ps m))

module _ (lib : JsonLib) where
  push_text-pair_of :
      (key : Bytes) (out : QueryMap) (t : Tried Bytes)
      → push_text lib key out t ≡ push_tried (pair_of key t) out
  unfolding push_all
  push_text-pair_of key out (value s) = refl
  push_text-pair_of key out (raised m) = refl
  push_text-pair_of key out starved = refl

  push_member_text :
      (key : Bytes) (out : QueryMap) (j : lib.Json)
      → push_text lib key out (member_text lib j)
        ≡ push_tried (pair_of key (text_at lib in_object j)) out
  push_member_text key out j =
      push_text-pair_of key out (member_text lib j)
      ∙ ap (λ t. push_tried (pair_of key t) out) (member_text-text_at lib j)

  push_element_text :
      (key : Bytes) (out : QueryMap) (j : lib.Json)
      → push_text lib key out (element_text lib j)
        ≡ push_tried (pair_of key (text_at lib outermost j)) out
  push_element_text key out j =
      push_text-pair_of key out (element_text lib j)
      ∙ ap (λ t. push_tried (pair_of key t) out) (element_text-text_at lib j)

  -- Pushing what is joined is pushing the first and then the second.
  push_tried-joined :
      (a b : Tried Pairs) (m : QueryMap)
      → push_tried (joined a b) m ≡ try_then (push_tried a m) (λ m'. push_tried b m')
  push_tried-joined (value ps) (value qs) m = ap value (push_all-append ps qs m)
  push_tried-joined (value ps) (raised x) m = refl
  push_tried-joined (value ps) starved m = refl
  push_tried-joined (raised x) b m = refl
  push_tried-joined starved b m = refl

  step_joined :
      (a : Tried Pairs) (b : Tried Pairs) (m : QueryMap) (t : Tried QueryMap)
      (next : QueryMap → Tried QueryMap)
      → t ≡ push_tried a m
      → ((m' : QueryMap) → next m' ≡ push_tried b m')
      → try_then t next ≡ push_tried (joined a b) m
  step_joined (value ps) b m t next e h =
      ap (λ x. try_then x next) e ∙ h (push_all ps m) ∙ sym (push_tried-joined (value ps) b m)
  step_joined (raised x) b m t next e h = ap (λ y. try_then y next) e
  step_joined starved b m t next e h = ap (λ y. try_then y next) e

  unfoldable pub member_pairs : Bytes → List lib.Json → Tried Pairs
  member_pairs key [] = value []
  member_pairs key (elem ∷ elems) =
      joined (pair_of key (text_at lib in_object elem)) (member_pairs key elems)

  push_members-member_pairs :
      (key : Bytes) (elems : List lib.Json) (out : QueryMap)
      → push_members lib key elems out ≡ push_tried (member_pairs key elems) out
  unfolding push_members member_pairs push_all
  push_members-member_pairs key [] out = refl
  push_members-member_pairs key (elem ∷ elems) out =
      step_joined (pair_of key (text_at lib in_object elem)) (member_pairs key elems) out
        (push_text lib key out (member_text lib elem)) (λ out'. push_members lib key elems out')
        (push_member_text key out elem) (λ m'. push_members-member_pairs key elems m')

  -- The paths start at `front`.
  module _ (front : Bytes) where
    unfoldable pub element_pairs : List Step → ℕ → List lib.Json → Tried Pairs
    element_pairs path i [] = value []
    element_pairs path i (elem ∷ elems) =
        joined (pair_of (spell front (path ++ element i ∷ [])) (text_at lib outermost elem))
          (element_pairs path (suc i) elems)

    unfoldable pub item_pair :
        (lib.Json → List Step → Tried Pairs) → List Step → lib.Json → Tried Pairs
    item_pair deeper path val = elim (lib.view val) [
      | object members ↦ deeper val path
      | array elems ↦ member_pairs (spell front path) elems
      | string s ↦ pair_of (spell front path) (text_at lib in_object val)
      | boolean b ↦ pair_of (spell front path) (text_at lib in_object val)
      | number ↦ pair_of (spell front path) (text_at lib in_object val)
      | null ↦ pair_of (spell front path) (text_at lib in_object val)
      | binary ↦ pair_of (spell front path) (text_at lib in_object val)
    ]

    unfoldable pub item_pairs :
        (lib.Json → List Step → Tried Pairs) → List Step → List (Bytes × lib.Json) → Tried Pairs
    item_pairs deeper path [] = value []
    item_pairs deeper path ((key, val) ∷ items) =
        joined (item_pair deeper (path ++ member key ∷ []) val) (item_pairs deeper path items)

    -- The pairs of the value at a path.
    unfoldable pub pairs : ℕ → lib.Json → List Step → Tried Pairs
    pairs zero j path = starved
    pairs (suc fuel) j path = elim (lib.view j) [
      | object items ↦ item_pairs (λ val deeper. pairs fuel val deeper) path items
      | array elems ↦ element_pairs path 0 elems
      | string s ↦ pair_of (spell front path) (text_at lib outermost j)
      | boolean b ↦ pair_of (spell front path) (text_at lib outermost j)
      | number ↦ pair_of (spell front path) (text_at lib outermost j)
      | null ↦ pair_of (spell front path) (text_at lib outermost j)
      | binary ↦ pair_of (spell front path) (text_at lib outermost j)
    ]

    element_key :
        (path : List Step) (i : ℕ)
        → index_key (spell front path) i ≡ spell front (path ++ element i ∷ [])
    element_key path i =
        index_key-step (spell front path) i ∙ sym (spell-snoc front path (element i))

    member_key :
        (path : List Step) (k : Bytes)
        → make_key (spell front path) k ≡ spell front (path ++ member k ∷ [])
    member_key path k = make_key-step (spell front path) k ∙ sym (spell-snoc front path (member k))

    push_elements-element_pairs :
        (path : List Step) (i : ℕ) (elems : List lib.Json) (out : QueryMap)
        → push_elements lib (spell front path) i elems out
          ≡ push_tried (element_pairs path i elems) out
    unfolding push_elements element_pairs push_all
    push_elements-element_pairs path i [] out = refl
    push_elements-element_pairs path i (elem ∷ elems) out =
        step_joined (pair_of (spell front (path ++ element i ∷ [])) (text_at lib outermost elem))
          (element_pairs path (suc i) elems) out
          (push_text lib (index_key (spell front path) i) out (element_text lib elem))
          (λ out'. push_elements lib (spell front path) (suc i) elems out')
          (push_element_text (index_key (spell front path) i) out elem
            ∙ ap (λ key. push_tried (pair_of key (text_at lib outermost elem)) out)
                (element_key path i))
          (λ m'. push_elements-element_pairs path (suc i) elems m')

    -- A recursion on maps and one on pairs that agree.
    abbrev Agree :
        (lib.Json → QueryMap → Bytes → Tried QueryMap)
        → (lib.Json → List Step → Tried Pairs)
        → Type 0
    Agree f g =
        (val : lib.Json) (out : QueryMap) (path : List Step)
        → f val out (spell front path) ≡ push_tried (g val path) out

    push_member-item_pair :
        (f : lib.Json → QueryMap → Bytes → Tried QueryMap) (g : lib.Json → List Step → Tried Pairs)
        (path : List Step) (val : lib.Json) (out : QueryMap)
        → Agree f g
        → push_member lib f (spell front path) val out ≡ push_tried (item_pair g path val) out
    unfolding push_member item_pair
    push_member-item_pair f g path val out h = by_view (lib.view val) refl
      where
        by_view :
            (v : View lib.Json)
            → lib.view val ≡ v
            → push_member lib f (spell front path) val out ≡ push_tried (item_pair g path val) out
        by_view (object members) e = rw (e, push_member, item_pair) (h val out path)
        by_view (array elems) e =
            rw (e, push_member, item_pair) (push_members-member_pairs (spell front path) elems out)
        by_view (string s) e =
            rw (e, push_member, item_pair) (push_member_text (spell front path) out val)
        by_view (boolean b) e =
            rw (e, push_member, item_pair) (push_member_text (spell front path) out val)
        by_view number e =
            rw (e, push_member, item_pair) (push_member_text (spell front path) out val)
        by_view null e =
            rw (e, push_member, item_pair) (push_member_text (spell front path) out val)
        by_view binary e =
            rw (e, push_member, item_pair) (push_member_text (spell front path) out val)

    push_items-item_pairs :
        (f : lib.Json → QueryMap → Bytes → Tried QueryMap) (g : lib.Json → List Step → Tried Pairs)
        (path : List Step) (items : List (Bytes × lib.Json)) (out : QueryMap)
        → Agree f g
        → push_items lib f (spell front path) items out ≡ push_tried (item_pairs g path items) out
    unfolding push_items item_pairs push_all
    push_items-item_pairs f g path [] out h = refl
    push_items-item_pairs f g path ((key, val) ∷ items) out h =
        step_joined (item_pair g (path ++ member key ∷ []) val) (item_pairs g path items) out
          (push_member lib f (make_key (spell front path) key) val out)
          (λ out'. push_items lib f (spell front path) items out')
          (ap (λ k. push_member lib f k val out) (member_key path key)
            ∙ push_member-item_pair f g (path ++ member key ∷ []) val out h)
          (λ m'. push_items-item_pairs f g path items m' h)

    json_to_multimap_at :
        (fuel : ℕ) (j : lib.Json) (out : QueryMap) (path : List Step)
        → json_to_multimap lib fuel j out (spell front path) ≡ push_tried (pairs fuel j path) out
    unfolding json_to_multimap pairs
    json_to_multimap_at zero j out path = refl
    json_to_multimap_at (suc fuel) j out path =
        by_view (lib.view j) refl (λ val out' deeper. json_to_multimap_at fuel val out' deeper)
      where
        by_view :
            (v : View lib.Json)
            → lib.view j ≡ v
            → Agree
                (λ val out' key. json_to_multimap lib fuel val out' key)
                (λ val deeper. pairs fuel val deeper)
            → json_to_multimap lib (suc fuel) j out (spell front path)
              ≡ push_tried (pairs (suc fuel) j path) out
        by_view (object items) e h =
            rw (e, json_to_multimap, pairs) (push_items-item_pairs _ _ path items out h)
        by_view (array elems) e h =
            rw (e, json_to_multimap, pairs) (push_elements-element_pairs path 0 elems out)
        by_view (string s) e h =
            rw (e, json_to_multimap, pairs) (push_element_text (spell front path) out j)
        by_view (boolean b) e h =
            rw (e, json_to_multimap, pairs) (push_element_text (spell front path) out j)
        by_view number e h =
            rw (e, json_to_multimap, pairs) (push_element_text (spell front path) out j)
        by_view null e h =
            rw (e, json_to_multimap, pairs) (push_element_text (spell front path) out j)
        by_view binary e h =
            rw (e, json_to_multimap, pairs) (push_element_text (spell front path) out j)

    -- `json_to_multimap` pushes, in their order, the pairs that a JSON value spells. Each value that is
    -- no object and no array has its path for a key, the steps of which are joined as `a.b` and, for
    -- an element of the outermost array, `a[0]`, with no dot or bracket behind an empty path; the
    -- elements of an array within an object stand under the path of the array. The texts are those of
    -- the table `text_of`. Where a text cannot be made, or the objects stand deeper than the fuel, both end in
    -- the same way.
    pub json_to_multimap-pairs :
        (fuel : ℕ) (j : lib.Json) (out : QueryMap)
        → json_to_multimap lib fuel j out front ≡ push_tried (pairs fuel j []) out
    unfolding spell
    json_to_multimap-pairs fuel j out = json_to_multimap_at fuel j out []
