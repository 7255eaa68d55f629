-- ===== src/CoroHttp/Reader/Arrives.antt =====
-- A header block that arrives whole: `read_until_double_crlf` and then `read_request`.
use ccnet_utilities.Common.{
  ℕ, zero, suc, ◌+◌, ◌≤◌, ◌<◌, ◌≡◌, refl, sym, ap, ◌∙◌, ◌≢◌, Bool, true, false, Option, none, some,
  [], ◌∷◌, ◌++◌, append_assoc, arith, dec_lt, ltb, within, length, length-append, Bytes, find,
  subst,
}
use ccnet_utilities.Common.{find-front, find-append, find-some_le}
use ccnet_utilities.CoroHttp.Reader.Header.{round_found, round_next}
use ccnet_utilities.CoroHttp.Reader.{max_temp_read_buffer, read_some, read_until_double_crlf}
use ccnet_utilities.CoroHttp.Socket.{Socket, Reads, Delivers}
use ccnet_utilities.CoroHttp.Task.{Outcome, returned}
use ccnet_utilities.Http.Request.Multipart.{all_seg_terminate}
use ccnet_utilities.Http.ServerConfig.{ServerConfig}

module _ {sock : Socket} (cfg : ServerConfig) (r : Reads sock) (d : Delivers r)
    (some_block : 0 < cfg.read_block) (small : cfg.read_block ≤ max_temp_read_buffer) where
  -- The header is in `accum_`, and no byte is lost.
  abbrev pub Arrives : Outcome (Bytes × sock.State) Bool → ℕ → Bytes → Type 0
  Arrives o n all =
      (accum : Bytes) × (st : sock.State) × (o ≡ returned true (accum, st))
      × (accum ++ r.pending st ≡ all)
      × (find accum all_seg_terminate ≡ some n)

  one_read :
      (fuel : ℕ) (accum : Bytes) (st : sock.State)
      → find accum all_seg_terminate ≡ none
      → length accum ≤ cfg.max_header_bytes
      → r.pending st ≢ []
      → (bs : Bytes) × (st₁ : sock.State) × (read_until_double_crlf sock cfg (suc fuel) accum st
          ≡ read_until_double_crlf sock cfg fuel (accum ++ bs) st₁)
        × (0 < length bs)
        × (r.pending st ≡ bs ++ r.pending st₁)
  unfolding read_some
  one_read fuel accum st e short more =
      let (b, bs, arrived) = d.some_got st cfg.read_block some_block more in
      let fits : length (b ∷ bs) ≤ cfg.read_block = r.got_within st cfg.read_block arrived in
      let inside : ltb max_temp_read_buffer (length (b ∷ bs)) ≡ false = ground arith in
      let room : ltb cfg.max_header_bytes (length accum) ≡ false = ground arith in
      (
        b ∷ bs,
        (sock.async_read st cfg.read_block).1,
        round_next cfg r 0 fuel accum st e room ∙ rw (arrived, read_some, inside) refl,
        omega arith,
        r.got_pending st cfg.read_block arrived,
      )

  pub read_until_double_crlf-Arrives :
      (fuel n : ℕ) (all accum : Bytes) (st : sock.State)
      → find all all_seg_terminate ≡ some n
      → accum ++ r.pending st ≡ all
      → n + 3 ≤ cfg.max_header_bytes
      → n + 4 < fuel + length accum
      → 0 < fuel
      → Arrives (read_until_double_crlf sock cfg fuel accum st) n all
  read_until_double_crlf-Arrives zero n all accum st found whole within enough positive =
      absurd (omega arith)
  read_until_double_crlf-Arrives (suc fuel) n all accum st found whole within enough positive =
      by_find (find accum all_seg_terminate) refl (λ accum₁ st₁ w e p.
        read_until_double_crlf-Arrives fuel n all accum₁ st₁ found w within e p)
    where
      none-ne-some : {o : Option ℕ} → o ≡ none → o ≡ some n → ⊥
      none-ne-some x y = cc

      same_place :
          {i : ℕ}
          → find accum all_seg_terminate ≡ some i
          → find all all_seg_terminate ≡ some i
          → find accum all_seg_terminate ≡ some n
      same_place e there = e ∙ sym there ∙ found

      by_find :
          (o : Option ℕ)
          → find accum all_seg_terminate ≡ o
          → ((accum₁ : Bytes) (st₁ : sock.State)
              → accum₁ ++ r.pending st₁ ≡ all
              → n + 4 < fuel + length accum₁
              → 0 < fuel
              → Arrives (read_until_double_crlf sock cfg fuel accum₁ st₁) n all)
          → Arrives (read_until_double_crlf sock cfg (suc fuel) accum st) n all
      by_find (some i) e ih =
          let joined : find (accum ++ r.pending st) all_seg_terminate ≡ some i =
            find-append accum (r.pending st) all_seg_terminate i e in
          let there : find all all_seg_terminate ≡ some i =
            subst (λ s. find s all_seg_terminate ≡ some i) whole joined in
          (accum, st, round_found cfg r 0 fuel accum st i e, whole, e ∙ sym there ∙ found)
      by_find none e ih =
          let found' : find (accum ++ r.pending st) all_seg_terminate ≡ some n =
            ap (λ s. find s all_seg_terminate) whole ∙ found in
          let short : length accum < n + 4 = elim (dec_lt (length accum) (n + 4)) [
            | yes lt ↦ lt
            | no ge ↦ absurd (
                none-ne-some e
                  (find-front accum (r.pending st) all_seg_terminate n found' (omega arith)))
          ] in
          let more : r.pending st ≢ [] = λ z. absurd (
            omega (
              arith,
              short,
              length-append accum (r.pending st),
              ap length z,
              find-some_le (accum ++ r.pending st) all_seg_terminate n found',
            )) in
          let (bs, st₁, step, positive₁, from) =
            one_read fuel accum st e (omega (arith, short)) more in
          let size : length (accum ++ bs) ≡ length accum + length bs = length-append accum bs in
          let (accum', st', done, whole', at) =
            ih (accum ++ bs) st₁
              (append_assoc accum bs (r.pending st₁) ∙ ap (λ p. accum ++ p) (sym from) ∙ whole)
              (omega (arith, size, positive₁)) (omega (arith, short)) in
          (accum', st', step ∙ done, whole', at)
