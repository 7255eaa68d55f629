-- ===== src/Http/Request/Query/Pieces.antt =====
-- The positions of `filled_params_query` against a reference that cuts the string at each `&`.
use ccnet_utilities.Common.{
  ℕ, zero, suc, ◌+◌, ◌-◌, ◌<◌, ◌≡◌, refl, sym, ap, ◌∙◌, subst, inl, inr, true, false, none, some,
  List, [], ◌∷◌, ◌++◌, append_assoc, append-nil, arith, ltb, ◌==◌, if◌then◌else◌, Option-cases,
  length, take, drop, length-append, Bytes, find_byte, substr, drop_at, find_byte_from-append,
  drop_behind,
}
use ccnet_utilities.Common.{
  find_byte_from, find_byte-cases, find_byte-append, find_byte-append_Lacks, find_byte-Lacks, Lacks,
  drop-append, take-append,
}
use mathlib.Core.Path.{fun_ext}
use ccnet_utilities.Http.Exceptions.{Result, ok, err, ◌>>=◌}
use ccnet_utilities.Http.QueryMap.{QueryMap, push}
use ccnet_utilities.Http.Request.Query.{
  key_value, key_only, add_param, query_loop, filled_params_query,
}
use ccnet_utilities.Http.Request.UrlDecode.{url_decode}

-- The parameters: the pieces between the `&`, without the empty one behind an `&` at the end.
abbrev first_piece : ℕ → List Bytes → List Bytes
first_piece c [] = (c ∷ []) ∷ []
first_piece c (p ∷ ps) = (c ∷ p) ∷ ps

unfoldable pub pieces : Bytes → List Bytes
pieces [] = []
pieces (c ∷ s) = if c == b'&' then [] ∷ pieces s else first_piece c (pieces s)

-- A parameter is split at its first `=`.
unfoldable pub add_piece : Bytes → QueryMap → Result QueryMap
add_piece piece m = elim (find_byte piece b'=') [
  | none ↦ url_decode piece >>= (λ key. ok (push m key []))
  | some i ↦
      url_decode (take i piece)
      >>= (λ key. url_decode (drop (suc i) piece) >>= (λ value. ok (push m key value)))
]

unfoldable pub add_pieces : List Bytes → QueryMap → Result QueryMap
add_pieces [] m = ok m
add_pieces (p ∷ ps) m = add_piece p m >>= add_pieces ps

pieces_one : (c : ℕ) (s : Bytes) → Lacks b'&' (c ∷ s) → pieces (c ∷ s) ≡ (c ∷ s) ∷ []
unfolding pieces
pieces_one c [] h = ground arith
pieces_one c (d ∷ s) h = ground (arith, pieces_one d s h.1)

pieces_more : (p r : Bytes) → Lacks b'&' p → pieces (p ++ b'&' ∷ r) ≡ p ∷ pieces r
unfolding pieces
pieces_more [] r h = refl
pieces_more (c ∷ p) r h = ground (arith, pieces_more p r h.1)

bind_ok : (r : Result QueryMap) → (r >>= ok) ≡ r
bind_ok (ok a) = refl
bind_ok (err e) = refl

-- One round works on the parameter alone: `tail` is what follows it.
module _ (pre : Bytes) (m : QueryMap) where
  key_only_piece :
      (piece tail : Bytes)
      → key_only (pre ++ (piece ++ tail)) (length pre) (length pre + length piece) m
        ≡ url_decode piece >>= (λ key. ok (push m key []))
  unfolding key_only
  key_only_piece piece tail =
      let n : length pre + length piece - length pre ≡ length piece = omega arith in
      rw (n, drop-append pre (piece ++ tail), take-append piece tail)

  add_param_key :
      (piece tail : Bytes)
      → Lacks b'=' piece
      → add_param (pre ++ (piece ++ tail)) (length pre) (length pre + length piece) m
        ≡ add_piece piece m
  unfolding add_param add_piece
  add_param_key piece tail h =
      let found = find_byte_from-append pre (piece ++ tail) b'=' in
      let beyond = find_byte-append_Lacks piece tail b'=' h in
      rw (find_byte-Lacks piece b'=' h, add_piece)
        (rw (found, beyond, add_param)
          (elim (Option-cases (find_byte tail b'=')) [
            | inl e ↦ rw e (key_only_piece piece tail)
            | inr (j, e) ↦
                let past : ltb (length pre + (length piece + j)) (length pre + length piece)
                    ≡ false =
                  ground arith in
                rw (e, past) (key_only_piece piece tail)
          ]))

  key_value_piece :
      (p r tail : Bytes)
      → key_value
          (pre ++ ((p ++ b'=' ∷ r) ++ tail))
          (length pre)
          (length pre + length (p ++ b'=' ∷ r))
          (length pre + length p)
          m
        ≡ url_decode p >>= (λ key. url_decode r >>= (λ value. ok (push m key value)))
  unfolding key_value
  key_value_piece p r tail =
      let whole : pre ++ ((p ++ b'=' ∷ r) ++ tail) ≡ (pre ++ p ++ b'=' ∷ []) ++ (r ++ tail) =
        simp append_assoc in
      let n : length pre + length p + 1 ≡ length (pre ++ p ++ b'=' ∷ []) =
        omega (arith, length-append (pre ++ p) (b'=' ∷ []), length-append pre p) in
      let k : length pre + length p - length pre ≡ length p = omega arith in
      let v : length pre + length (p ++ b'=' ∷ r) - (length pre + length p) - 1 ≡ length r =
        omega (arith, length-append p (b'=' ∷ r)) in
      let key : substr (pre ++ ((p ++ b'=' ∷ r) ++ tail)) (length pre)
            (length pre + length p - length pre)
          ≡ p =
        rw (k, drop-append pre ((p ++ b'=' ∷ r) ++ tail), append_assoc p (b'=' ∷ r) tail)
          (take-append p (b'=' ∷ r ++ tail)) in
      let value : substr (pre ++ ((p ++ b'=' ∷ r) ++ tail)) (length pre + length p + 1)
            (length pre + length (p ++ b'=' ∷ r) - (length pre + length p) - 1)
          ≡ r =
        rw (v, whole, drop_at _ (pre ++ p ++ b'=' ∷ []) (r ++ tail) n) (take-append r tail) in
      rw (key, value)

  add_param_value :
      (p r tail : Bytes)
      → Lacks b'=' p
      → add_param
          (pre ++ ((p ++ b'=' ∷ r) ++ tail))
          (length pre)
          (length pre + length (p ++ b'=' ∷ r))
          m
        ≡ add_piece (p ++ b'=' ∷ r) m
  unfolding add_param add_piece
  add_param_value p r tail h =
      let found : find_byte_from (pre ++ ((p ++ b'=' ∷ r) ++ tail)) b'=' (length pre)
          ≡ some (length pre + length p) =
        find_byte_from-append pre ((p ++ b'=' ∷ r) ++ tail) b'='
        ∙ rw (append_assoc p (b'=' ∷ r) tail, find_byte-append p (r ++ tail) b'=' h) in
      let inside : ltb (length pre + length p) (length pre + length (p ++ b'=' ∷ r)) ≡ true =
        ground (arith, length-append p (b'=' ∷ r)) in
      rw (find_byte-append p r b'=' h, add_piece)
        (rw (found, add_param)
          (rw (inside, take-append p (b'=' ∷ r))
            (key_value_piece p r tail
              ∙ ap
                  (λ v. url_decode p >>= (λ key. url_decode v >>= (λ value. ok (push m key value))))
                  (sym (drop_behind p b'=' r)))))

  add_param-piece :
      (piece tail : Bytes)
      → add_param (pre ++ (piece ++ tail)) (length pre) (length pre + length piece) m
        ≡ add_piece piece m
  add_param-piece piece tail = elim (find_byte-cases piece b'=') [
    | inl (e, h) ↦ add_param_key piece tail h
    | inr (p, r, e, h, f) ↦ rw e (add_param_value p r tail h)
  ]

last_round :
    (pre : Bytes) (c : ℕ) (s : Bytes) (m : QueryMap)
    → Lacks b'&' (c ∷ s)
    → add_param (pre ++ c ∷ s) (length pre) (length (pre ++ c ∷ s)) m
      ≡ add_pieces (pieces (c ∷ s)) m
unfolding add_pieces
last_round pre c s m lacks =
    let whole : add_param (pre ++ c ∷ s) (length pre) (length (pre ++ c ∷ s)) m
        ≡ add_piece (c ∷ s) m =
      rw length-append (
        subst
          (λ (t : Bytes).
            add_param (pre ++ t) (length pre) (length pre + length (c ∷ s)) m ≡ add_piece (c ∷ s) m)
          (append-nil (c ∷ s)) (add_param-piece pre m (c ∷ s) [])) in
    whole ∙ rw (pieces_one c s lacks, add_pieces) (sym (bind_ok _))

more_round :
    (fuel : ℕ) (pre rest p r : Bytes) (m : QueryMap)
    → rest ≡ p ++ b'&' ∷ r
    → Lacks b'&' p
    → ((m' : QueryMap)
        → query_loop fuel ((pre ++ p ++ b'&' ∷ []) ++ r) (length (pre ++ p ++ b'&' ∷ [])) m'
          ≡ add_pieces (pieces r) m')
    → add_param (pre ++ rest) (length pre) (length pre + length p) m
        >>= (λ m'. query_loop fuel (pre ++ rest) (length pre + length p + 1) m')
      ≡ add_pieces (pieces rest) m
unfolding add_pieces
more_round fuel pre rest p r m e lacks ih =
    let whole : pre ++ (p ++ b'&' ∷ r) ≡ (pre ++ p ++ b'&' ∷ []) ++ r = simp append_assoc in
    let n : length pre + length p + 1 ≡ length (pre ++ p ++ b'&' ∷ []) =
      omega (arith, length-append (pre ++ p) (b'&' ∷ []), length-append pre p) in
    rw (e, add_param-piece pre m p (b'&' ∷ r), pieces_more p r lacks, n, whole)
      (ap (λ k. add_piece p m >>= k) (fun_ext ih))

shorter :
    (fuel : ℕ) (rest p r : Bytes) → rest ≡ p ++ b'&' ∷ r → length rest < suc fuel → length r < fuel
shorter fuel rest p r e h = omega (arith, ap length e, length-append p (b'&' ∷ r))

-- The loop from the end of `pre`, with fuel for each byte of `rest`.
query_loop-pieces :
    (fuel : ℕ) (pre rest : Bytes) (m : QueryMap)
    → length rest < fuel
    → query_loop fuel (pre ++ rest) (length pre) m ≡ add_pieces (pieces rest) m
unfolding query_loop pieces add_pieces
query_loop-pieces zero pre rest m h = absurd (omega arith)
query_loop-pieces (suc fuel) pre [] m h =
    let stop : ltb (length pre) (length (pre ++ [])) ≡ false =
      ground (arith, length-append pre []) in
    rw stop
query_loop-pieces (suc fuel) pre (c ∷ s) m h =
    let go : ltb (length pre) (length (pre ++ c ∷ s)) ≡ true =
      ground (arith, length-append pre (c ∷ s)) in
    rw go (elim (find_byte-cases (c ∷ s) b'&') [
      | inl (e, lacks) ↦ rw (find_byte_from-append pre (c ∷ s) b'&', e) (last_round pre c s m lacks)
      | inr (p, r, e, lacks, f) ↦
          rw (find_byte_from-append pre (c ∷ s) b'&', f)
            (more_round fuel pre (c ∷ s) p r m e lacks (λ m'.
              query_loop-pieces fuel (pre ++ p ++ b'&' ∷ []) r m' (shorter fuel (c ∷ s) p r e h)))
    ])

-- `filled_params_query` cuts at each `&`, splits at the first `=` of a piece, decodes both parts and
-- adds the pair, in the order of the string, or ends with the first decoding error.
pub filled_params_query-pieces :
    (src : Bytes) → filled_params_query src ≡ add_pieces (pieces src) []
unfolding filled_params_query
filled_params_query-pieces src = query_loop-pieces (length src + 1) [] src [] (omega arith)
