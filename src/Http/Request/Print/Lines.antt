-- ===== src/Http/Request/Print/Lines.antt =====
-- How a line of a field is read.
use ccnet_utilities.Common.{
  suc, ◌+◌, ◌≡◌, refl, sym, ap, ◌∙◌, ◌≢◌, inl, inr, true, false, none, some, [], ◌∷◌, ◌++◌, arith,
  if◌then◌else◌, Bool-cases, Option-cases, length, drop, Bytes, codes, find_byte, substr,
  find_byte-append, take-append, drop_behind,
}
use ccnet_utilities.Cpp.Words.{NoSpaces}
use ccnet_utilities.Utils.Copy.{to_lower_copy, is_space, trim_copy}
use ccnet_utilities.Utils.Copy.Tight.{trim_copy-IsTight, trim_copy-space, NoSpaces-IsTight}
use ccnet_utilities.Http.Headers
use ccnet_utilities.Http.Headers.{Headers, case_insensitive_eq}
use ccnet_utilities.Http.Headers.Laws.{get-set, find_item-eq}
use ccnet_utilities.Http.Request.Parse.{HeaderState, header_line, add_header, starts_blank}
use ccnet_utilities.Http.Request.Print.{Field, line_of, IsField, joined}

starts_blank-NoSpaces : (k s : Bytes) → k ≢ [] → NoSpaces k → starts_blank (k ++ s) ≡ false
unfolding is_space
starts_blank-NoSpaces [] s ne h = absurd (ne refl)
starts_blank-NoSpaces (c ∷ k) s ne h = ground (arith, h.0)

-- The line of a field is read as its key and its value.
pub header_line-line_of :
    (after_move : Bytes → Bytes) (f : Field) (st : HeaderState)
    → IsField f
    → header_line after_move (line_of f) st ≡ add_header after_move f.key f.value st
unfolding header_line
header_line-line_of after_move f st h =
    let k : Bytes = f.key in
    let bold : starts_blank (line_of f) ≡ false =
      starts_blank-NoSpaces f.key (b':' ∷ b' ' ∷ f.value) h.named h.no_spaces in
    let colon : find_byte (line_of f) b':' ≡ some (length f.key) =
      find_byte-append f.key (b' ' ∷ f.value) b':' h.no_colon in
    let key_text : substr (line_of f) 0 (length f.key) ≡ f.key =
      take-append f.key (b':' ∷ b' ' ∷ f.value) in
    let key : to_lower_copy (trim_copy (substr (line_of f) 0 (length f.key))) ≡ f.key =
      ap (λ s. to_lower_copy (trim_copy s)) key_text
      ∙ ap to_lower_copy (trim_copy-IsTight f.key (NoSpaces-IsTight f.key h.no_spaces))
      ∙ h.lower in
    let behind : length f.key + 1 ≡ suc (length f.key) = omega arith in
    let value_text : drop (length f.key + 1) (line_of f) ≡ b' ' ∷ f.value =
      ap (λ n. drop n (line_of f)) behind ∙ drop_behind f.key b':' (b' ' ∷ f.value) in
    let value : trim_copy (drop (length f.key + 1) (line_of f)) ≡ f.value =
      ap trim_copy value_text ∙ trim_copy-space f.value ∙ trim_copy-IsTight f.value h.tight in
    rw (bold, colon, header_line)
      (ap (λ a. add_header after_move a (trim_copy (drop (length f.key + 1) (line_of f))) st) key
        ∙ ap (λ v. add_header after_move f.key v st) value)

add_header_old :
    (after_move : Bytes → Bytes) (key val old : Bytes) (st : HeaderState)
    → Headers.get st.headers key ≡ some old
    → (add_header after_move key val st).headers
      ≡ Headers.set st.headers key (old ++ codes ", " ++ val)
unfolding add_header
add_header_old after_move key val old st e = rw (e, add_header) refl

add_header_first :
    (after_move : Bytes → Bytes) (key val : Bytes) (st : HeaderState)
    → Headers.get st.headers key ≡ none
    → (add_header after_move key val st).headers ≡ Headers.set st.headers key val
unfolding add_header
add_header_first after_move key val st e = rw (e, add_header) refl

pub add_header-pos :
    (after_move : Bytes → Bytes) (key val : Bytes) (st : HeaderState)
    → ((add_header after_move key val st).pos ≡ st.pos)
      × ((add_header after_move key val st).header_count ≡ st.header_count)
unfolding add_header
add_header-pos after_move key val st = elim (Option-cases (Headers.get st.headers key)) [
  | inl e ↦ rw (e, add_header) (refl, refl)
  | inr (old, e) ↦ rw (e, add_header) (refl, refl)
]

get-eq :
    (h : Headers) (k j : Bytes) → case_insensitive_eq k j ≡ true → Headers.get h k ≡ Headers.get h j
unfolding Headers.get
get-eq h k j e = find_item-eq k j h.items e

-- One more field.
pub get-add_header :
    (after_move : Bytes → Bytes) (key val j : Bytes) (st : HeaderState)
    → Headers.get (add_header after_move key val st).headers j ≡ (
        if case_insensitive_eq key j
        then joined (Headers.get st.headers j) val
        else Headers.get st.headers j)
get-add_header after_move key val j st = elim (Option-cases (Headers.get st.headers key)) [
  | inl e ↦
      ap (λ h. Headers.get h j) (add_header_first after_move key val st e)
      ∙ get-set st.headers key j val
      ∙ elim (Bool-cases (case_insensitive_eq key j)) [
        | inl same ↦
            let was : Headers.get st.headers j ≡ none = sym (get-eq st.headers key j same) ∙ e in
            rw (same, was) refl
        | inr other ↦ rw other refl
      ]
  | inr (old, e) ↦
      ap (λ h. Headers.get h j) (add_header_old after_move key val old st e)
      ∙ get-set st.headers key j (old ++ codes ", " ++ val)
      ∙ elim (Bool-cases (case_insensitive_eq key j)) [
        | inl same ↦
            let was : Headers.get st.headers j ≡ some old =
              sym (get-eq st.headers key j same) ∙ e in
            rw (same, was) refl
        | inr other ↦ rw other refl
      ]
]
