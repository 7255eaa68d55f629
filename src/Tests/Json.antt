-- ===== src/Tests/Json.antt =====
-- A small library of JSON values, numbered, and the theorems on it.
use ccnet_utilities.Common.{
  ℕ, zero, suc, ◌<◌, ◌≡◌, subst, List, [], ◌∷◌, arith, All, Bytes, codes, text,
}
use ccnet_utilities.Http.JsonForm.{
  View, object, array, string, null, value, raised, Parsed, parsed, parse_error, JsonLib,
  json_to_multimap, from_json_string,
}
use ccnet_utilities.Http.JsonForm.Leaves.{pairs, push_tried, json_to_multimap-pairs}
use ccnet_utilities.Http.JsonForm.Ends.{Terminates, IsAnswered, from_json_string-IsAnswered}

-- 4 stands for {"a": "x", "b": ["x", null], "c": {"d": "x"}}.
abbrev view : ℕ → View ℕ
view zero = null
view (suc zero) = string (codes "x")
view (suc (suc zero)) = array (1 ∷ 0 ∷ [])
view (suc (suc (suc zero))) = object ((codes "d", 1) ∷ [])
view (suc (suc (suc (suc n)))) = object ((codes "a", 1) ∷ (codes "b", 2) ∷ (codes "c", 3) ∷ [])

abbrev parse : Bytes → Parsed ℕ
parse [] = parse_error (text "unexpected end of input")
parse (c ∷ s) = parsed 4

abbrev small_json : JsonLib
small_json = record {
  Json = ℕ;
  parse = parse;
  view = view;
  dump = λ j. raised (text "invalid UTF-8 byte");
  print = λ j. value (codes "null");
}

json_to_multimap-pairs_example :
    json_to_multimap small_json 3 4 [] [] ≡ push_tried (pairs small_json [] 3 4 []) []
json_to_multimap-pairs_example = json_to_multimap-pairs small_json [] 3 4 []

object-injective : {a b : List (Bytes × ℕ)} → object a ≡ object b → a ≡ b
object-injective e = cc

parsed-injective : {a b : ℕ} → parsed a ≡ parsed b → a ≡ b
parsed-injective e = cc

-- How deep objects stand in objects.
abbrev depth : ℕ → ℕ
depth zero = 0
depth (suc zero) = 0
depth (suc (suc zero)) = 0
depth (suc (suc (suc zero))) = 1
depth (suc (suc (suc (suc n)))) = 2

view-object :
    (j : ℕ) {items : List (Bytes × ℕ)}
    → view j ≡ object items
    → All (λ item. depth item.1 < depth j) items
view-object zero e = absurd cc
view-object (suc zero) e = absurd cc
view-object (suc (suc zero)) e = absurd cc
view-object (suc (suc (suc zero))) e =
    subst (All (λ item. depth item.1 < 1)) (object-injective e) (omega arith, tt)
view-object (suc (suc (suc (suc n)))) e =
    subst (All (λ item. depth item.1 < 2)) (object-injective e)
      (omega arith, (omega arith, (omega arith, tt)))

abbrev small_terminates : Terminates small_json
small_terminates = record {
  depth = depth;
  deeper = λ j e. view-object j e;
  dumped = λ j. tt;
  printed = λ j. tt;
}

parse-depth : (s : Bytes) (j : ℕ) → parse s ≡ parsed j → depth j < 3
parse-depth [] j e = absurd cc
parse-depth (c ∷ s) j e = subst (λ i. depth i < 3) (parsed-injective e) (omega arith)

from_json_string-IsAnswered_example : IsAnswered (from_json_string small_json 3 (codes "{}"))
from_json_string-IsAnswered_example =
    from_json_string-IsAnswered small_terminates 3 (codes "{}") (λ j e. parse-depth _ j e)
