-- ===== src/Tests/Messages.antt =====
-- Parameters.
use ccnet_utilities.Common.{◌≡◌, refl, [], ◌∷◌, arith, codes}
use ccnet_utilities.Http.Request.UrlDecode.{url_decode, plain, plus, escape, end, url_decode-Spells}
use ccnet_utilities.Http.Request.Query.{filled_params_query}
use ccnet_utilities.Http.Request.Query.Pieces.{filled_params_query-pieces, pieces, add_pieces}
use ccnet_utilities.Cpp.Numbers.{digit}
use ccnet_utilities.Http.Exceptions.{ok}

url_decode-Spells_example : url_decode (codes "a+%20") ≡ ok (codes "a  ")
unfolding digit
url_decode-Spells_example =
    url_decode-Spells {e = codes "a+%20"} {d = codes "a  "}
      (plain (λ e. omega arith) (λ e. omega arith) (plus refl (escape refl refl refl end)))

filled_params_query-pieces_example :
    filled_params_query (codes "a=1&b&") ≡ add_pieces (codes "a=1" ∷ codes "b" ∷ []) []
unfolding pieces
filled_params_query-pieces_example = filled_params_query-pieces (codes "a=1&b&")
