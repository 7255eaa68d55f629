-- ===== src/Http/Request/Query.antt =====
-- `filled_params_query` of library/http/http_request.cpp.
pub mod Pieces
use ccnet_utilities.Common.{
  ℕ, zero, suc, ◌+◌, ◌-◌, none, some, [], ltb, if◌then◌else◌, length, Bytes, substr,
}
use ccnet_utilities.Common.{find_byte_from}
use ccnet_utilities.Http.Exceptions.{Result, ok, ◌>>=◌}
use ccnet_utilities.Http.QueryMap.{QueryMap, push}
use ccnet_utilities.Http.Request.UrlDecode.{url_decode}

-- The key at `position` with the value behind the `=` at `equal_splits`.
unfoldable pub key_value : Bytes → ℕ → ℕ → ℕ → QueryMap → Result QueryMap
key_value src position end equal_splits query_pair = do
  key ← url_decode (substr src position (equal_splits - position))
  value ← url_decode (substr src (equal_splits + 1) (end - equal_splits - 1))
  ok (push query_pair key value)

-- A key without a value.
unfoldable pub key_only : Bytes → ℕ → ℕ → QueryMap → Result QueryMap
key_only src position end query_pair = do
  key ← url_decode (substr src position (end - position))
  ok (push query_pair key [])

-- One round of the loop, on the parameter from `position` to `end`.
unfoldable pub add_param : Bytes → ℕ → ℕ → QueryMap → Result QueryMap
add_param src position end query_pair = elim (find_byte_from src b'=' position) [
  | none ↦ key_only src position end query_pair
  | some equal_splits ↦
      if ltb equal_splits end
      then key_value src position end equal_splits query_pair
      else key_only src position end query_pair
]

-- The loop. `position` grows in each round, so `src.size() + 1` rounds are enough fuel.
unfoldable pub query_loop : ℕ → Bytes → ℕ → QueryMap → Result QueryMap
query_loop zero src position query_pair = ok query_pair
query_loop (suc fuel) src position query_pair =
    let round : Result QueryMap = elim (find_byte_from src b'&' position) [
      | none ↦ add_param src position (length src) query_pair
      | some amp ↦ do m ← add_param src position amp query_pair; query_loop fuel src (amp + 1) m
    ] in
    if ltb position (length src) then round else ok query_pair

unfoldable pub filled_params_query : Bytes → Result QueryMap
filled_params_query src = query_loop (length src + 1) src 0 []
