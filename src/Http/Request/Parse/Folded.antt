-- ===== src/Http/Request/Parse/Folded.antt =====
-- Folded headers: lines that begin with a space or a tab.
use ccnet_utilities.Common.{◌≡◌, ap, ◌∙◌, inl, inr, true, none, [], Bool-cases, Bytes, find_byte}
use ccnet_utilities.Http.Headers
use ccnet_utilities.Http.Headers.{Headers, case_insensitive_eq}
use ccnet_utilities.Http.Request.Parse.{
  HeaderState, add_header, header_line, starts_blank, is_empty,
}

add_header_new :
    (after_move : Bytes → Bytes) (key val : Bytes) (st : HeaderState)
    → Headers.get st.headers key ≡ none
    → add_header after_move key val st
      ≡ record st { headers = Headers.set st.headers key val; last_key = after_move key }
unfolding add_header
add_header_new after_move key val st e = rw (e, add_header)

header_line_no_colon :
    (after_move : Bytes → Bytes) (line : Bytes) (st : HeaderState)
    → is_empty st.last_key ≡ true
    → find_byte line b':' ≡ none
    → header_line after_move line st ≡ st
unfolding header_line
header_line_no_colon after_move line st key e = elim (Bool-cases (starts_blank line)) [
  | inl blank ↦ rw (blank, key, e, header_line)
  | inr plain ↦ rw (plain, e, header_line)
]

-- Where the move of a new key leaves an empty string, a line without a colon behind the line of that
-- key is lost, also one that begins with a space or a tab.
pub header_line-add_header :
    (after_move : Bytes → Bytes) (key val line : Bytes) (st : HeaderState)
    → Headers.get st.headers key ≡ none
    → after_move key ≡ []
    → find_byte line b':' ≡ none
    → header_line after_move line (add_header after_move key val st)
      ≡ add_header after_move key val st
header_line-add_header after_move key val line st new moved e =
    header_line_no_colon after_move line (add_header after_move key val st)
      (ap (λ t. is_empty t.last_key) (add_header_new after_move key val st new) ∙ ap is_empty moved)
      e
