-- ===== src/Http/QueryMap.antt =====
-- `Request::query_map_t` of library/http/http_request.h, an `unordered_map` from a key to a list of
-- values, as an association list. The sources only look keys up and add to them.
use ccnet_utilities.Common.{
  ◌≡◌, ◌≢◌, inl, inr, Option, none, some, List, [], ◌∷◌, ◌++◌, arith, if◌then◌else◌, Bool-cases,
  All, Bytes, equal, equal_iff,
}

abbrev pub QueryMap : Type 0
QueryMap = List (Bytes × List Bytes)

-- `out[key].push_back(value)`.
unfoldable pub push : QueryMap → Bytes → Bytes → QueryMap
unfolding equal
push [] key value = (key, value ∷ []) ∷ []
push ((k, vs) ∷ m) key value =
    if equal k key then (k, vs ++ value ∷ []) ∷ m else (k, vs) ∷ push m key value

-- `m.find(key)`.
unfoldable pub find_key : QueryMap → Bytes → Option (List Bytes)
unfolding equal
find_key [] key = none
find_key ((k, vs) ∷ m) key = if equal k key then some vs else find_key m key

abbrev pub values : Option (List Bytes) → List Bytes
values none = []
values (some vs) = vs

-- A key's values after `push`: the new one comes last, and other keys keep theirs.
pub find_key-push :
    (m : QueryMap) (key j value : Bytes)
    → find_key (push m key value) j
      ≡ (if equal key j then some (values (find_key m j) ++ value ∷ []) else find_key m j)
unfolding find_key push
find_key-push [] key j value = ground arith
find_key-push ((k, vs) ∷ m) key j value =
    ground (arith, equal_iff k key, equal_iff key j, equal_iff k j, find_key-push m key j value)

-- No key has an empty list of values.
abbrev pub NonEmpty : QueryMap → Type 0
NonEmpty = All (λ p. p.1 ≢ [])

pub push-NonEmpty : (m : QueryMap) (key value : Bytes) → NonEmpty m → NonEmpty (push m key value)
unfolding push
push-NonEmpty [] key value h = (λ e. cc, tt)
push-NonEmpty ((k, vs) ∷ m) key value h = elim (Bool-cases (equal k key)) [
  | inl e ↦ rw e (append-ne-nil vs value, h.1)
  | inr e ↦ rw e (h.0, push-NonEmpty m key value h.1)
]
  where
    append-ne-nil : (vs : List Bytes) (v : Bytes) → vs ++ v ∷ [] ≢ []
    append-ne-nil [] v e = cc
    append-ne-nil (x ∷ vs) v e = cc
