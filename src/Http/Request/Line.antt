-- ===== src/Http/Request/Line.antt =====
-- `consume_line` of library/http/http_request.cpp.
use ccnet_utilities.Common.{
  ℕ, zero, suc, ◌+◌, ◌-◌, ◌<◌, ◌≡◌, refl, ap, ◌∙◌, ◌≢◌, ◌⊎◌, inl, inr, true, false, ◌&&◌, Option,
  none, some, [], ◌∷◌, ◌++◌, append_assoc, arith, ltb, leb, ◌==◌, if◌then◌else◌, Bool-cases, length,
  drop, length-append, Bytes, substr, take-length,
}
use ccnet_utilities.Common.{find_byte_from, find_byte-append, find_byte-Lacks, Lacks, take-append}
use ccnet_utilities.Utils.Copy.{byte_at}

-- The line, or `none` for `nullopt`, and the new `pos`. A needle of one character is found as that
-- character.
unfoldable pub consume_line : Bytes → ℕ → ℕ → Option Bytes × ℕ
unfolding find_byte_from
consume_line header_block pos len =
    if leb len pos then (none, pos) else (elim (find_byte_from header_block b'\n' pos) [
      | none ↦ (some (substr header_block pos (len - pos)), len)
      | some nl ↦
          let end : ℕ = if ltb pos nl && byte_at header_block (nl - 1) == 13 then nl - 1 else nl in
          (some (substr header_block pos (end - pos)), nl + 1)
    ])

-- A line without the carriage return at its end, if there is one.
unfoldable pub strip_cr : Bytes → Bytes
strip_cr [] = []
strip_cr (c ∷ []) = if c == 13 then [] else c ∷ []
strip_cr (c ∷ d ∷ s) = c ∷ strip_cr (d ∷ s)

byte_at-append : (p s : Bytes) (j : ℕ) → byte_at (p ++ s) (length p + j) ≡ byte_at s j
byte_at-append [] s j = ap (byte_at s) {x = zero + j} {y = j} (omega arith)
byte_at-append (c ∷ p) s j =
    let e : length (c ∷ p) + j ≡ suc (length p + j) = omega arith in rw e (byte_at-append p s j)

drop_within : (p r : Bytes) → drop (length p) (p ++ r) ≡ r
drop_within [] r = refl
drop_within (c ∷ p) r = drop_within p r

Snoc : Bytes → Type 0
Snoc s = (s ≡ []) ⊎ ((q : Bytes) × (x : ℕ) × (s ≡ q ++ x ∷ []))

Snoc-cons : (c : ℕ) (s : Bytes) → Snoc s → Snoc (c ∷ s)
unfolding Snoc
Snoc-cons c s (inl e) = inr ([], c, ap (◌∷◌ c) e)
Snoc-cons c s (inr (q, x, e)) = inr (c ∷ q, x, ap (◌∷◌ c) e)

snoc : (s : Bytes) → Snoc s
snoc [] = unfold Snoc in inl refl
snoc (c ∷ s) = Snoc-cons c s (snoc s)

pub strip_cr-snoc :
    (q : Bytes) (x : ℕ) → strip_cr (q ++ x ∷ []) ≡ (if x == 13 then q else q ++ x ∷ [])
unfolding strip_cr
strip_cr-snoc [] x = refl
strip_cr-snoc (c ∷ []) x = ground arith
strip_cr-snoc (c ∷ d ∷ q) x = ground (arith, strip_cr-snoc (d ∷ q) x)

-- What the line is cut to, in front of the newline that was found.
module _ (p r : Bytes) where
  abbrev cut : Bytes → Bytes
  cut raw = substr (p ++ (raw ++ r)) (length p) (
      (if ltb (length p) (length p + length raw)
          && byte_at (p ++ (raw ++ r)) (length p + length raw - 1) == 13
        then length p + length raw - 1
        else length p + length raw)
      - length p)

  cut_empty : cut [] ≡ strip_cr []
  unfolding strip_cr
  cut_empty = rw (drop_within p r) (ground arith)

  last_byte :
      (q : Bytes) (x : ℕ)
      → byte_at (p ++ ((q ++ x ∷ []) ++ r)) (length p + length (q ++ x ∷ []) - 1) ≡ x
  last_byte q x =
      let i : length p + length (q ++ x ∷ []) - 1 ≡ length p + (length q + 0) =
        omega (arith, length-append q (x ∷ [])) in
      rw (i, append_assoc q (x ∷ []) r)
        (byte_at-append p (q ++ x ∷ r) (length q + 0) ∙ byte_at-append q (x ∷ r) 0)

  cut-snoc : (q : Bytes) (x : ℕ) → cut (q ++ x ∷ []) ≡ strip_cr (q ++ x ∷ [])
  cut-snoc q x =
      let more : ltb (length p) (length p + length (q ++ x ∷ [])) ≡ true =
        ground (arith, length-append q (x ∷ [])) in
      rw (more, last_byte q x, strip_cr-snoc q x, drop_within p ((q ++ x ∷ []) ++ r))
        (elim (Bool-cases (x == 13)) [
          | inl e ↦
              let n : length p + length (q ++ x ∷ []) - 1 - length p ≡ length q =
                omega (arith, length-append q (x ∷ [])) in
              rw (e, n, append_assoc q (x ∷ []) r) (take-append q (x ∷ r))
          | inr e ↦
              let n : length p + length (q ++ x ∷ []) - length p ≡ length (q ++ x ∷ []) =
                omega arith in
              rw (e, n) (take-append (q ++ x ∷ []) r)
        ])

  cut-strip_cr : (raw : Bytes) → cut raw ≡ strip_cr raw
  unfolding Snoc
  cut-strip_cr raw = elim (snoc raw) [
    | inl e ↦ rw e cut_empty
    | inr (q, x, e) ↦ rw e (cut-snoc q x)
  ]

-- Where a line `raw`, with no newline in it, and a newline follow `p`, the line is read without its carriage return, and
-- `pos` moves behind the newline.
pub consume_line_full :
    (p raw r : Bytes)
    → Lacks b'\n' raw
    → consume_line (p ++ (raw ++ b'\n' ∷ r)) (length p) (length (p ++ (raw ++ b'\n' ∷ r)))
      ≡ (some (strip_cr raw), length p + length raw + 1)
consume_line_full p raw r h =
    let block = p ++ (raw ++ b'\n' ∷ r) in
    let found : find_byte_from block b'\n' (length p) ≡ some (length p + length raw) =
      unfold find_byte_from in
      rw (drop_within p (raw ++ b'\n' ∷ r), find_byte-append raw r b'\n' h) in
    let inside : leb (length block) (length p) ≡ false =
      ground (arith, length-append p (raw ++ b'\n' ∷ r), length-append raw (b'\n' ∷ r)) in
    unfold consume_line in rw (inside, found, cut-strip_cr p (b'\n' ∷ r) raw)

-- A last line with no newline is read as it stands, and `pos` moves to the end.
pub consume_line_last :
    (p raw : Bytes)
    → raw ≢ []
    → Lacks b'\n' raw
    → consume_line (p ++ raw) (length p) (length (p ++ raw)) ≡ (some raw, length (p ++ raw))
consume_line_last p raw ne h =
    let found : find_byte_from (p ++ raw) b'\n' (length p) ≡ none =
      unfold find_byte_from in rw (drop_within p raw, find_byte-Lacks raw b'\n' h) in
    let positive : 0 < length raw = length-pos raw ne in
    let inside : leb (length (p ++ raw)) (length p) ≡ false = ground (arith, length-append p raw) in
    let n : length (p ++ raw) - length p ≡ length raw = omega (arith, length-append p raw) in
    unfold consume_line in rw (inside, found, n, drop_within p raw, take-length raw)
  where
    length-pos : (s : Bytes) → s ≢ [] → 0 < length s
    length-pos [] h = absurd (h refl)
    length-pos (c ∷ s) h = omega arith
