-- ===== src/Http/JsonForm/Ends.antt =====
-- How `from_json_string` ends.
use ccnet_utilities.Common.{
  ℕ, zero, suc, ◌<◌, ◌≡◌, refl, Option, none, some, List, [], ◌∷◌, arith, All, Bytes,
}
use ccnet_utilities.Http.Exceptions.{Result, ok, err, request_json_parse_failed}
use ccnet_utilities.Http.QueryMap.{QueryMap}
use ccnet_utilities.Http.JsonForm.{
  object, array, string, boolean, number, null, binary, Tried, value, raised, starved, try_then,
  JsonLib, make_key, index_key, member_text, element_text, push_text, push_members, push_elements,
  push_items, json_to_multimap, push_member, View, Parsed, parsed, parse_error, other_error,
  from_json_string, strip_bom, caught,
}

-- It gives a value or throws.
abbrev pub IsDone : {A : Type 0} → Tried A → Type 0
IsDone (value a) = Unit {0}
IsDone (raised m) = Unit {0}
IsDone starved = ⊥

try_then-IsDone :
    {A B : Type 0} (t : Tried A) (next : A → Tried B)
    → IsDone t
    → ((a : A) → IsDone (next a))
    → IsDone (try_then t next)
try_then-IsDone (value a) next d h = h a
try_then-IsDone (raised m) next d h = tt
try_then-IsDone starved next d h = absurd d

-- A JSON value is finite: the members of an object are less deep than it. To print a value ends.
pub record Terminates (lib : JsonLib) : Type 0 where
  pub depth : lib.Json → ℕ
  pub deeper :
      (j : lib.Json) {items : List (Bytes × lib.Json)}
      → lib.view j ≡ object items
      → All (λ item. depth item.1 < depth j) items
  pub dumped : (j : lib.Json) → IsDone (lib.dump j)
  pub printed : (j : lib.Json) → IsDone (lib.print j)

-- A map, or an exception of the kind that the callers expect.
abbrev pub IsAnswered : Option (Result QueryMap) → Type 0
IsAnswered (some (ok m)) = Unit {0}
IsAnswered (some (err e)) = e.kind ≡ request_json_parse_failed
IsAnswered none = ⊥

module _ {lib : JsonLib} (ends : Terminates lib) where
  member_text-IsDone : (j : lib.Json) → IsDone (member_text lib j)
  unfolding member_text
  member_text-IsDone j = by_view (lib.view j) refl
    where
      by_view : (v : View lib.Json) → lib.view j ≡ v → IsDone (member_text lib j)
      by_view (object items) e = rw (e, member_text) (ends.dumped j)
      by_view (array elems) e = rw (e, member_text) (ends.dumped j)
      by_view (string s) e = rw (e, member_text) tt
      by_view (boolean b) e = rw (e, member_text) tt
      by_view number e = rw (e, member_text) (ends.printed j)
      by_view null e = rw (e, member_text) tt
      by_view binary e = rw (e, member_text) (ends.dumped j)

  element_text-IsDone : (j : lib.Json) → IsDone (element_text lib j)
  unfolding element_text
  element_text-IsDone j = by_view (lib.view j) refl
    where
      by_view : (v : View lib.Json) → lib.view j ≡ v → IsDone (element_text lib j)
      by_view (object items) e = rw (e, element_text) (ends.dumped j)
      by_view (array elems) e = rw (e, element_text) (ends.dumped j)
      by_view (string s) e = rw (e, element_text) tt
      by_view (boolean b) e = rw (e, element_text) tt
      by_view number e = rw (e, element_text) (ends.printed j)
      by_view null e = rw (e, element_text) (ends.printed j)
      by_view binary e = rw (e, element_text) (ends.printed j)

  push_text-IsDone :
      (key : Bytes) (out : QueryMap) (t : Tried Bytes) → IsDone t → IsDone (push_text lib key out t)
  push_text-IsDone key out t d = try_then-IsDone t _ d (λ s. tt)

  push_members-IsDone :
      (key : Bytes) (elems : List lib.Json) (out : QueryMap)
      → IsDone (push_members lib key elems out)
  unfolding push_members
  push_members-IsDone key [] out = tt
  push_members-IsDone key (elem ∷ elems) out =
      try_then-IsDone (push_text lib key out (member_text lib elem)) _
        (push_text-IsDone key out (member_text lib elem) (member_text-IsDone elem))
        (λ out'. push_members-IsDone key elems out')

  push_elements-IsDone :
      (prefix : Bytes) (i : ℕ) (elems : List lib.Json) (out : QueryMap)
      → IsDone (push_elements lib prefix i elems out)
  unfolding push_elements
  push_elements-IsDone prefix i [] out = tt
  push_elements-IsDone prefix i (elem ∷ elems) out =
      try_then-IsDone (push_text lib (index_key prefix i) out (element_text lib elem)) _
        (push_text-IsDone (index_key prefix i) out (element_text lib elem)
          (element_text-IsDone elem))
        (λ out'. push_elements-IsDone prefix (suc i) elems out')

  -- `deeper` ends on the values that are less deep than `bound`.
  abbrev Ends : ℕ → (lib.Json → QueryMap → Bytes → Tried QueryMap) → Type 0
  Ends bound deeper =
      (j : lib.Json) (out : QueryMap) (key : Bytes)
      → ends.depth j < bound
      → IsDone (deeper j out key)

  push_member-IsDone :
      (deeper : lib.Json → QueryMap → Bytes → Tried QueryMap) (bound : ℕ) (key : Bytes)
      (val : lib.Json) (out : QueryMap)
      → Ends bound deeper
      → ends.depth val < bound
      → IsDone (push_member lib deeper key val out)
  unfolding push_member
  push_member-IsDone deeper bound key val out h lt = by_view (lib.view val) refl
    where
      leaf : IsDone (push_text lib key out (member_text lib val))
      leaf = push_text-IsDone key out (member_text lib val) (member_text-IsDone val)

      by_view : (v : View lib.Json) → lib.view val ≡ v → IsDone (push_member lib deeper key val out)
      by_view (object members) e = rw (e, push_member) (h val out key lt)
      by_view (array elems) e = rw (e, push_member) (push_members-IsDone key elems out)
      by_view (string s) e = rw (e, push_member) leaf
      by_view (boolean b) e = rw (e, push_member) leaf
      by_view number e = rw (e, push_member) leaf
      by_view null e = rw (e, push_member) leaf
      by_view binary e = rw (e, push_member) leaf

  push_items-IsDone :
      (deeper : lib.Json → QueryMap → Bytes → Tried QueryMap) (bound : ℕ) (prefix : Bytes)
      (items : List (Bytes × lib.Json)) (out : QueryMap)
      → Ends bound deeper
      → All (λ item. ends.depth item.1 < bound) items
      → IsDone (push_items lib deeper prefix items out)
  unfolding push_items
  push_items-IsDone deeper bound prefix [] out h all = tt
  push_items-IsDone deeper bound prefix ((key, val) ∷ items) out h all =
      try_then-IsDone (push_member lib deeper (make_key prefix key) val out) _
        (push_member-IsDone deeper bound (make_key prefix key) val out h all.0)
        (λ out'. push_items-IsDone deeper bound prefix items out' h all.1)

  json_to_multimap-IsDone :
      (fuel : ℕ) (j : lib.Json) (out : QueryMap) (prefix : Bytes)
      → ends.depth j < fuel
      → IsDone (json_to_multimap lib fuel j out prefix)
  unfolding json_to_multimap
  json_to_multimap-IsDone zero j out prefix h = absurd (omega arith)
  json_to_multimap-IsDone (suc fuel) j out prefix h =
      by_view (lib.view j) refl
        (λ val out' key lt. json_to_multimap-IsDone fuel val out' key (omega (arith, lt)))
    where
      leaf : IsDone (push_text lib prefix out (element_text lib j))
      leaf = push_text-IsDone prefix out (element_text lib j) (element_text-IsDone j)

      by_view :
          (v : View lib.Json)
          → lib.view j ≡ v
          → Ends (ends.depth j) (λ val out' key. json_to_multimap lib fuel val out' key)
          → IsDone (json_to_multimap lib (suc fuel) j out prefix)
      by_view (object items) e ih =
          rw (e, json_to_multimap)
            (push_items-IsDone (λ val out' key. json_to_multimap lib fuel val out' key)
              (ends.depth j) prefix items out ih (ends.deeper j e))
      by_view (array elems) e ih =
          rw (e, json_to_multimap) (push_elements-IsDone prefix 0 elems out)
      by_view (string s) e ih = rw (e, json_to_multimap) leaf
      by_view (boolean b) e ih = rw (e, json_to_multimap) leaf
      by_view number e ih = rw (e, json_to_multimap) leaf
      by_view null e ih = rw (e, json_to_multimap) leaf
      by_view binary e ih = rw (e, json_to_multimap) leaf

  caught-IsAnswered : (t : Tried QueryMap) → IsDone t → IsAnswered (caught lib t)
  caught-IsAnswered (value m) d = tt
  caught-IsAnswered (raised m) d = refl
  caught-IsAnswered starved d = absurd d

  -- With more fuel than a parsed value is deep, `from_json_string` gives a map or throws an exception
  -- of the kind `RequestJsonParseFailed`, and no other, whatever the text is and whatever the library
  -- throws at parsing or printing. JSON values are finite, and to print one ends.
  pub from_json_string-IsAnswered :
      (fuel : ℕ) (json_string : Bytes)
      → ((j : lib.Json) → lib.parse (strip_bom lib json_string) ≡ parsed j → ends.depth j < fuel)
      → IsAnswered (from_json_string lib fuel json_string)
  unfolding from_json_string
  from_json_string-IsAnswered fuel json_string h =
      by_parse (lib.parse (strip_bom lib json_string)) refl
    where
      by_parse :
          (r : Parsed lib.Json)
          → lib.parse (strip_bom lib json_string) ≡ r
          → IsAnswered (from_json_string lib fuel json_string)
      by_parse (parsed j) e =
          rw (e, from_json_string)
            (caught-IsAnswered (json_to_multimap lib fuel j [] [])
              (json_to_multimap-IsDone fuel j [] [] (h j e)))
      by_parse (parse_error m) e = rw (e, from_json_string) refl
      by_parse (other_error m) e = rw (e, from_json_string) refl
