-- ===== src/Http/JsonForm.antt =====
-- library/http/json_helper/json_to_http.h and json_to_http.cpp. The library nlohmann/json is a
-- parameter; fuel bounds how deep objects stand in objects.
pub mod Paths
pub mod Leaves
pub mod Ends
use ccnet_utilities.Common.{
  ℕ, zero, suc, ◌+◌, ◌-◌, ◌*◌, ◌/◌, ◌%◌, ◌^◌, ◌≤◌, ◌<◌, min, ◌≡◌, refl, sym, ap, ◌∙◌, subst, ◌≢◌,
  ◌↔◌, ◌⊎◌, inl, inr, Bool, true, false, not, ◌&&◌, ◌||◌, Option, none, some, List, [], ◌∷◌, ◌++◌,
  append_assoc, append-nil, arith, dec_lt, dec_le, ltb, leb, ◌==◌, if◌then◌else◌, within,
  Bool-cases, Option-cases, ==_iff, length, take, drop, length-append, length-take, length-drop,
  take-append-drop, All, Bytes, codes, text, equal, equal_iff, find, find_byte, substr,
}
use ccnet_utilities.Cpp.Numbers.{to_string}
use ccnet_utilities.Http.Exceptions.{Result, ok, throw, request_json_parse_failed}
use ccnet_utilities.Http.QueryMap.{QueryMap, push}

-- What the tests `is_object`, `is_array`, ... tell of a value, with the parts that are read: the
-- members of an object in the order of its iterator.
pub data View (J : Type 0) : Type 0 where
  object : List (Bytes × J) → View J
  array : List J → View J
  string : Bytes → View J
  boolean : Bool → View J
  number : View J
  null : View J
  binary : View J

-- A call that may throw; what it throws tells `what()`. The last case is that the fuel ran out.
pub data Tried (A : Type 0) : Type 0 where
  value : A → Tried A
  raised : Bytes → Tried A
  starved : Tried A

abbrev pub try_then : {A B : Type 0} → Tried A → (A → Tried B) → Tried B
try_then (value a) next = next a
try_then (raised m) next = raised m
try_then starved next = starved

-- The result of `json::parse`.
pub data Parsed (J : Type 0) : Type 0 where
  parsed : J → Parsed J
  parse_error : Bytes → Parsed J
  other_error : Bytes → Parsed J

-- `dump` is `j.dump()` and `print` is `stream << j`; both throw at a string that is not UTF-8.
pub record JsonLib : Type 1 where
  pub Json : Type 0
  pub parse : Bytes → Parsed Json
  pub view : Json → View Json
  pub dump : Json → Tried Bytes
  pub print : Json → Tried Bytes

abbrev pub bool_text : Bool → Bytes
bool_text true = codes "true"
bool_text false = codes "false"

unfoldable pub is_bom_json : Bytes → Bool
is_bom_json (a ∷ b ∷ c ∷ s) = a == 0xEF && (b == 0xBB && c == 0xBF)
is_bom_json _ = false

unfoldable pub make_key : Bytes → Bytes → Bytes
make_key [] k = k
make_key (c ∷ s) k = (c ∷ s) ++ (codes "." ++ k)

unfoldable pub index_key : Bytes → ℕ → Bytes
index_key [] i = to_string i
index_key (c ∷ s) i = (c ∷ s) ++ (codes "[" ++ (to_string i ++ codes "]"))

module _ (lib : JsonLib) where
  -- A value within an object that is no object, or an element of an array there.
  unfoldable pub member_text : lib.Json → Tried Bytes
  member_text j = elim (lib.view j) [
    | string s ↦ value s
    | boolean b ↦ value (bool_text b)
    | number ↦ lib.print j
    | null ↦ value []
    | binary ↦ lib.dump j
    | object items ↦ lib.dump j
    | array elems ↦ lib.dump j
  ]

  -- An element of the outermost array.
  unfoldable pub element_text : lib.Json → Tried Bytes
  element_text j = elim (lib.view j) [
    | string s ↦ value s
    | boolean b ↦ value (bool_text b)
    | number ↦ lib.print j
    | null ↦ lib.print j
    | binary ↦ lib.print j
    | object items ↦ lib.dump j
    | array elems ↦ lib.dump j
  ]

  -- `out[key].push_back(text)`.
  abbrev pub push_text : Bytes → QueryMap → Tried Bytes → Tried QueryMap
  push_text key out t = try_then t (λ s. value (push out key s))

  -- The elements of an array within an object, all under one key.
  unfoldable pub push_members : Bytes → List lib.Json → QueryMap → Tried QueryMap
  push_members key [] out = value out
  push_members key (elem ∷ elems) out =
      try_then (push_text key out (member_text elem)) (λ out'. push_members key elems out')

  -- The elements of the outermost array from the index `i` on.
  unfoldable pub push_elements : Bytes → ℕ → List lib.Json → QueryMap → Tried QueryMap
  push_elements prefix i [] out = value out
  push_elements prefix i (elem ∷ elems) out =
      try_then (push_text (index_key prefix i) out (element_text elem))
        (λ out'. push_elements prefix (suc i) elems out')

  -- A member of an object under its whole key; `deeper` is `json_to_multimap` itself.
  unfoldable pub push_member :
      (lib.Json → QueryMap → Bytes → Tried QueryMap) → Bytes → lib.Json → QueryMap → Tried QueryMap
  push_member deeper key val out = elim (lib.view val) [
    | object members ↦ deeper val out key
    | array elems ↦ push_members key elems out
    | string s ↦ push_text key out (member_text val)
    | boolean b ↦ push_text key out (member_text val)
    | number ↦ push_text key out (member_text val)
    | null ↦ push_text key out (member_text val)
    | binary ↦ push_text key out (member_text val)
  ]

  unfoldable pub push_items :
      (lib.Json → QueryMap → Bytes → Tried QueryMap)
      → Bytes
      → List (Bytes × lib.Json)
      → QueryMap
      → Tried QueryMap
  push_items deeper prefix [] out = value out
  push_items deeper prefix ((key, val) ∷ items) out =
      try_then (push_member deeper (make_key prefix key) val out)
        (λ out'. push_items deeper prefix items out')

  unfoldable pub json_to_multimap : ℕ → lib.Json → QueryMap → Bytes → Tried QueryMap
  json_to_multimap zero j out prefix = starved
  json_to_multimap (suc fuel) j out prefix = elim (lib.view j) [
    | object items ↦
        push_items (λ val out' key. json_to_multimap fuel val out' key) prefix items out
    | array elems ↦ push_elements prefix 0 elems out
    | string s ↦ push_text prefix out (element_text j)
    | boolean b ↦ push_text prefix out (element_text j)
    | number ↦ push_text prefix out (element_text j)
    | null ↦ push_text prefix out (element_text j)
    | binary ↦ push_text prefix out (element_text j)
  ]

  abbrev pub unexpected : Bytes → Result QueryMap
  unexpected m =
      throw request_json_parse_failed (text "Unexpected error while parsing JSON form body: " ++ m)

  -- The handlers of the `try` block; `none` is out of fuel.
  abbrev pub caught : Tried QueryMap → Option (Result QueryMap)
  caught (value m) = some (ok m)
  caught (raised m) = some (unexpected m)
  caught starved = none

  abbrev pub strip_bom : Bytes → Bytes
  strip_bom s = if is_bom_json s then drop 3 s else s

  unfoldable pub from_json_string : ℕ → Bytes → Option (Result QueryMap)
  from_json_string fuel json_string = elim (lib.parse (strip_bom json_string)) [
    | parsed j ↦ caught (json_to_multimap fuel j [] [])
    | parse_error m ↦
        some (
          throw request_json_parse_failed
            (text "Third Party blame you for the json parsing: " ++ m))
    | other_error m ↦ some (unexpected m)
  ]
