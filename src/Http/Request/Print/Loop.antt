-- ===== src/Http/Request/Print/Loop.antt =====
-- How the header loop reads the lines of fields.
use ccnet_utilities.Common.{
  ℕ, zero, suc, ◌+◌, ◌≤◌, ◌<◌, ◌≡◌, refl, sym, ap, ◌∙◌, ◌≢◌, true, false, none, some, List, [], ◌∷◌,
  ◌++◌, append_assoc, append-nil, arith, leb, length, length-append, Bytes, Lacks, All-append,
}
use ccnet_utilities.Cpp.Words.{NoSpaces}
use ccnet_utilities.Utils.Copy.{is_space}
use ccnet_utilities.Http.Headers
use ccnet_utilities.Http.Headers.{Headers, case_insensitive_eq}
use ccnet_utilities.Http.Request.Line.{
  consume_line, strip_cr, consume_line_full, consume_line_last, strip_cr-snoc,
}
use ccnet_utilities.Http.Request.{max_line}
use ccnet_utilities.Http.Request.Parse.{HeaderState, header_line, header_loop, add_header}
use ccnet_utilities.Http.Request.Print.{Field, line_of, lines_of, IsField, AreFields, value_of}
use ccnet_utilities.Http.Request.Print.Lines.{header_line-line_of, get-add_header, add_header-pos}

-- The lines, behind the first line end.
abbrev pub rest_of : List Field → Bytes
rest_of [] = []
rest_of (f ∷ fs) = line_of f ++ lines_of fs

-- A key holds no line end, since that is a space.
pub NoSpaces-Lacks : (s : Bytes) (b : ℕ) → is_space b ≡ true → NoSpaces s → Lacks b s
NoSpaces-Lacks [] b e h = tt
NoSpaces-Lacks (c ∷ s) b e h =
    (λ same. true-ne-false (sym e ∙ ap is_space (sym same) ∙ h.0), NoSpaces-Lacks s b e h.1)
  where
    true-ne-false : true ≡ false → ⊥
    true-ne-false z = cc

pub newline_space : is_space b'\n' ≡ true
unfolding is_space
newline_space = refl

pub line_of-Lacks : (f : Field) → IsField f → Lacks b'\n' (line_of f)
line_of-Lacks f h =
    All-append (λ c. c ≢ b'\n') f.key (b':' ∷ b' ' ∷ f.value)
      (NoSpaces-Lacks f.key b'\n' newline_space h.no_spaces)
      (omega arith, (omega arith, h.one_line))

pub append-ne-nil : (k s : Bytes) → k ≢ [] → k ++ s ≢ []
append-ne-nil [] s ne e = ne refl
append-ne-nil (c ∷ k) s ne e = cc

strip_line : (l : Bytes) → strip_cr (l ++ b'\r' ∷ []) ≡ l
strip_line l = strip_cr-snoc l b'\r'

-- One line is consumed, and what is behind it is left.
abbrev pub Consumed : Bytes → ℕ → Bytes → List Field → Type 0
Consumed block pos line fs =
    (p' : Bytes) × (block ≡ p' ++ rest_of fs)
    × (consume_line block pos (length block) ≡ (some line, length p'))

pub consume_line_of :
    (p line : Bytes) (fs : List Field)
    → line ≢ []
    → Lacks b'\n' line
    → Consumed (p ++ (line ++ lines_of fs)) (length p) line fs
consume_line_of p line [] ne h =
    let whole : p ++ (line ++ []) ≡ p ++ line = ap (λ s. p ++ s) (append-nil line) in
    (
      p ++ line,
      whole ∙ sym (append-nil (p ++ line)),
      ap (λ b. consume_line b (length p) (length b)) whole ∙ consume_line_last p line ne h,
    )
consume_line_of p line (g ∷ fs) ne h =
    let raw : Bytes = line ++ b'\r' ∷ [] in
    let r : Bytes = line_of g ++ lines_of fs in
    let split : line ++ b'\r' ∷ b'\n' ∷ r ≡ raw ++ b'\n' ∷ r =
      sym (append_assoc line (b'\r' ∷ []) (b'\n' ∷ r)) in
    let whole : p ++ (line ++ b'\r' ∷ b'\n' ∷ r) ≡ p ++ (raw ++ b'\n' ∷ r) =
      ap (λ s. p ++ s) split in
    let raw_lacks : Lacks b'\n' raw =
      All-append (λ c. c ≢ b'\n') line (b'\r' ∷ []) h (omega arith, tt) in
    let size : length p + length raw + 1 ≡ length (p ++ (raw ++ b'\n' ∷ [])) =
      omega (arith, length-append p (raw ++ b'\n' ∷ []), length-append raw (b'\n' ∷ [])) in
    (
      p ++ (raw ++ b'\n' ∷ []),
      whole
          ∙ ap (λ s. p ++ s) (sym (append_assoc raw (b'\n' ∷ []) r))
          ∙ sym (append_assoc p (raw ++ b'\n' ∷ []) r),
      ap (λ b. consume_line b (length p) (length b)) whole
          ∙ consume_line_full p raw r raw_lacks
          ∙ ap (λ l. (some l, length p + length raw + 1)) (strip_line line)
          ∙ ap (λ n. (some line, n)) size,
    )

module _ (after_move : Bytes → Bytes) (fuel : ℕ) (block : Bytes) (st : HeaderState) where
  loop_some :
      (line : Bytes) (next : ℕ)
      → leb st.header_count max_line ≡ true
      → line ≢ []
      → consume_line block st.pos (length block) ≡ (some line, next)
      → header_loop after_move (suc fuel) block st
        ≡ header_loop after_move fuel block (
            header_line after_move line
              (record st { header_count = st.header_count + 1; pos = next }))
  unfolding header_loop
  loop_some [] next room ne e = absurd (ne refl)
  loop_some (c ∷ s) next room ne e =
      let line : (consume_line block st.pos (length block)).0 ≡ some (c ∷ s) = ap (λ x. x.0) e in
      let pos : (consume_line block st.pos (length block)).1 ≡ next = ap (λ x. x.1) e in
      rw (room, line, pos) refl

  loop_over :
      (next : ℕ)
      → leb st.header_count max_line ≡ true
      → consume_line block st.pos (length block) ≡ (none, next)
      → header_loop after_move (suc fuel) block st
        ≡ record st { header_count = st.header_count + 1; pos = next }
  unfolding header_loop
  loop_over next room e =
      let line : (consume_line block st.pos (length block)).0 ≡ none = ap (λ x. x.0) e in
      let pos : (consume_line block st.pos (length block)).1 ≡ next = ap (λ x. x.1) e in
      rw (room, line, pos) refl

consume_line_end :
    (block : Bytes) (n : ℕ) → n ≡ length block → consume_line block n (length block) ≡ (none, n)
unfolding consume_line
consume_line_end block n e = let past : leb (length block) n ≡ true = ground arith in rw past refl

-- What the loop has done: it has counted the lines and the end, and each header has the value that
-- the fields give to it.
abbrev pub Read : HeaderState → HeaderState → List Field → Type 0
Read st done fs =
    (done.header_count ≡ st.header_count + length fs + 1)
    × ((j : Bytes) → Headers.get done.headers j ≡ value_of j (Headers.get st.headers j) fs)

pub header_loop-Read :
    (after_move : Bytes → Bytes) (fuel : ℕ) (block p : Bytes) (fs : List Field) (st : HeaderState)
    → AreFields fs
    → block ≡ p ++ rest_of fs
    → st.pos ≡ length p
    → st.header_count + length fs ≤ max_line
    → length fs < fuel
    → Read st (header_loop after_move fuel block st) fs
unfolding value_of
header_loop-Read after_move zero block p fs st fields e at room h = absurd (omega arith)
header_loop-Read after_move (suc fuel) block p [] st fields e at room h =
    let here : st.pos ≡ length block = at ∙ ap length (sym (append-nil p)) ∙ ap length (sym e) in
    let more : leb st.header_count max_line ≡ true = ground arith in
    let done =
      loop_over after_move fuel block st st.pos more (consume_line_end block st.pos here) in
    rw done (omega arith, λ j. refl)
header_loop-Read after_move (suc fuel) block p (f ∷ fs) st (field, fields) e at room h =
    let more : leb st.header_count max_line ≡ true = ground arith in
    let (p', split, consumed) =
      consume_line_of p (line_of f) fs (append-ne-nil f.key (b':' ∷ b' ' ∷ f.value) field.named)
        (line_of-Lacks f field) in
    let block_at : consume_line block st.pos (length block) ≡ (some (line_of f), length p') =
      ap (λ n. consume_line block n (length block)) at
      ∙ ap (λ b. consume_line b (length p) (length b)) e
      ∙ consumed in
    let counted : HeaderState = record st { header_count = st.header_count + 1; pos = length p' } in
    let st₁ : HeaderState = add_header after_move f.key f.value counted in
    let step : header_loop after_move (suc fuel) block st ≡ header_loop after_move fuel block st₁ =
      loop_some after_move fuel block st (line_of f) (length p') more
        (append-ne-nil f.key (b':' ∷ b' ' ∷ f.value) field.named) block_at
      ∙ ap (λ t. header_loop after_move fuel block t)
          (header_line-line_of after_move f counted field) in
    let (pos₁, count₁) = add_header-pos after_move f.key f.value counted in
    let (count, values) =
      header_loop-Read after_move fuel block p' fs st₁ fields (e ∙ split) pos₁
        (omega (arith, count₁)) (omega arith) in
    rw step (
      omega (arith, count, count₁),
      λ j. values j ∙ ap (λ o. value_of j o fs) (get-add_header after_move f.key f.value j counted),
    )
