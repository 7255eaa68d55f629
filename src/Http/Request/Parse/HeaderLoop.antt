-- ===== src/Http/Request/Parse/HeaderLoop.antt =====
-- The header loop keeps each header once.
use ccnet_utilities.Common.{zero, suc}
use ccnet_utilities.Common.{◌∷◌, refl}
use ccnet_utilities.Common.{◌+◌, none, some, subst, sym, []}
use ccnet_utilities.Common.{
  inl, inr, not, ◌&&◌, Bool-cases, Option-cases, Bytes, find_byte, ℕ, suc, leb, ◌≡◌, Option, false,
  true, length, some, subst, none,
}
use ccnet_utilities.Http.Headers
use ccnet_utilities.Http.Headers.{Headers}
use ccnet_utilities.Http.Headers.Laws.{IsWellFormed, set-erase-IsWellFormed}
use ccnet_utilities.Http.Request.Parse.{
  HeaderState, continue_header, add_header, header_line, starts_blank, is_empty, header_loop,
  max_line, consume_line,
}

set-IsWellFormed : (h : Headers) (k v : Bytes) → IsWellFormed h → IsWellFormed (Headers.set h k v)
set-IsWellFormed h k v u = (set-erase-IsWellFormed h k v u).0

continue_header-IsWellFormed :
    (line : Bytes) (st : HeaderState)
    → IsWellFormed st.headers
    → IsWellFormed (continue_header line st).headers
unfolding continue_header
continue_header-IsWellFormed line st u = elim (Option-cases (Headers.get st.headers st.last_key)) [
  | inl e ↦ rw (e, continue_header) (set-IsWellFormed st.headers st.last_key _ u)
  | inr (v, e) ↦ rw (e, continue_header) (set-IsWellFormed st.headers st.last_key _ u)
]

add_header-IsWellFormed :
    (after_move : Bytes → Bytes) (key val : Bytes) (st : HeaderState)
    → IsWellFormed st.headers
    → IsWellFormed (add_header after_move key val st).headers
unfolding add_header
add_header-IsWellFormed after_move key val st u = elim (Option-cases (Headers.get st.headers key)) [
  | inl e ↦ rw (e, add_header) (set-IsWellFormed st.headers key _ u)
  | inr (v, e) ↦ rw (e, add_header) (set-IsWellFormed st.headers key _ u)
]

header_line-IsWellFormed :
    (after_move : Bytes → Bytes) (line : Bytes) (st : HeaderState)
    → IsWellFormed st.headers
    → IsWellFormed (header_line after_move line st).headers
unfolding header_line
header_line-IsWellFormed after_move line st u =
    elim (Bool-cases (starts_blank line && not (is_empty st.last_key))) [
      | inl e ↦ rw (e, header_line) (continue_header-IsWellFormed line st u)
      | inr e ↦ elim (Option-cases (find_byte line b':')) [
        | inl n ↦ rw (e, header_line) (rw n u)
        | inr (i, n) ↦ rw (e, header_line) (rw n (add_header-IsWellFormed after_move _ _ st u))
      ]
    ]

-- The rounds of the loop, by the line that is read.
abbrev counted : Bytes → HeaderState → HeaderState
counted block st = record st {
  header_count = st.header_count + 1;
  pos = (consume_line block st.pos (length block)).1;
}

module _ (after_move : Bytes → Bytes) (fuel : ℕ) (block : Bytes) (st : HeaderState) where
  abbrev loop : HeaderState
  loop = header_loop after_move (suc fuel) block st

  loop_full : leb st.header_count max_line ≡ false → loop ≡ st
  unfolding header_loop
  loop_full full = rw full

  loop_end :
      leb st.header_count max_line ≡ true
      → (consume_line block st.pos (length block)).0 ≡ none
      → loop ≡ counted block st
  unfolding header_loop
  loop_end room e = rw (room, e)

  loop_empty :
      leb st.header_count max_line ≡ true
      → (consume_line block st.pos (length block)).0 ≡ some []
      → loop ≡ counted block st
  unfolding header_loop
  loop_empty room e = rw (room, e)

  loop_line :
      (c : ℕ) (s : Bytes)
      → leb st.header_count max_line ≡ true
      → (consume_line block st.pos (length block)).0 ≡ some (c ∷ s)
      → loop ≡ header_loop after_move fuel block (header_line after_move (c ∷ s) (counted block st))
  unfolding header_loop
  loop_line c s room e = rw (room, e)

pub header_loop-IsWellFormed :
    (after_move : Bytes → Bytes) (fuel : ℕ) (block : Bytes) (st : HeaderState)
    → IsWellFormed st.headers
    → IsWellFormed (header_loop after_move fuel block st).headers
unfolding header_loop
header_loop-IsWellFormed after_move zero block st u = u
header_loop-IsWellFormed after_move (suc fuel) block st u =
    by_line _ refl (λ st'. header_loop-IsWellFormed after_move fuel block st')
  where
    by_line :
        (line : Option Bytes)
        → (consume_line block st.pos (length block)).0 ≡ line
        → ((st' : HeaderState)
            → IsWellFormed st'.headers
            → IsWellFormed (header_loop after_move fuel block st').headers)
        → IsWellFormed (header_loop after_move (suc fuel) block st).headers
    by_line line e ih = elim (Bool-cases (leb st.header_count max_line)) [
      | inr full ↦
          subst (λ t. IsWellFormed t.headers) (sym (loop_full after_move fuel block st full)) u
      | inl room ↦ on_line line e room ih
    ]
      where
        on_line :
            (line : Option Bytes)
            → (consume_line block st.pos (length block)).0 ≡ line
            → leb st.header_count max_line ≡ true
            → ((st' : HeaderState)
                → IsWellFormed st'.headers
                → IsWellFormed (header_loop after_move fuel block st').headers)
            → IsWellFormed (header_loop after_move (suc fuel) block st).headers
        on_line none e room ih =
            subst (λ t. IsWellFormed t.headers) (sym (loop_end after_move fuel block st room e)) u
        on_line (some []) e room ih =
            subst (λ t. IsWellFormed t.headers) (sym (loop_empty after_move fuel block st room e)) u
        on_line (some (c ∷ s)) e room ih =
            subst (λ t. IsWellFormed t.headers)
              (sym (loop_line after_move fuel block st c s room e))
              (ih _ (header_line-IsWellFormed after_move (c ∷ s) (counted block st) u))
