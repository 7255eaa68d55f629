-- ===== src/CoroHttp/Reader/Header.antt =====
-- `read_until_double_crlf` ends, within its bound, and loses nothing.
use ccnet_utilities.Common.{
  ℕ, zero, suc, ◌+◌, ◌≤◌, ◌<◌, ◌≡◌, refl, sym, ap, ◌∙◌, ◌≢◌, ◌⊎◌, inl, inr, Bool, true, false,
  Option, none, some, [], ◌∷◌, ◌++◌, append_assoc, append-nil, arith, ltb, Bool-cases, Option-cases,
  length, length-append, Bytes, text, find, ltb→lt,
}
use ccnet_utilities.CoroHttp.Reader.Some.{read_some-cases}
use ccnet_utilities.CoroHttp.Reader.{
  max_temp_read_buffer, not_empty, error, read_some, read_until_double_crlf,
}
use ccnet_utilities.CoroHttp.Socket.{Socket, Reads, got, failed}
use ccnet_utilities.CoroHttp.Task.{Outcome, returned, thrown, fault, starved}
use ccnet_utilities.Http.Exceptions.{http_header_too_large}
use ccnet_utilities.Http.Request.Multipart.{all_seg_terminate}
use ccnet_utilities.Http.ServerConfig.{ServerConfig}

module _ {sock : Socket} (r : Reads sock) where
  -- `accum'` is `accum` with bytes that were pending, and nothing else was taken.
  pub record Took (accum : Bytes) (st : sock.State) (accum' : Bytes) (st' : sock.State)
      : Type 0 where
    pub taken : Bytes
    pub appended : accum' ≡ accum ++ taken
    pub from_pending : r.pending st ≡ taken ++ r.pending st'

  Took-none : (accum : Bytes) (st : sock.State) → Took accum st accum st
  Took-none accum st = record { taken = []; appended = sym (append-nil accum); from_pending = refl }

  Took-same :
      (accum : Bytes) (st st' : sock.State) → r.pending st ≡ r.pending st' → Took accum st accum st'
  Took-same accum st st' e = record {
    taken = [];
    appended = sym (append-nil accum);
    from_pending = e;
  }

  Took-cons :
      (accum bs : Bytes) (st st₁ : sock.State) {accum' : Bytes} {st' : sock.State}
      → r.pending st ≡ bs ++ r.pending st₁
      → Took (accum ++ bs) st₁ accum' st'
      → Took accum st accum' st'
  Took-cons accum bs st st₁ {accum'} {st'} e t = record {
    taken = bs ++ t.taken;
    appended = t.appended ∙ append_assoc accum bs t.taken;
    from_pending =
        e ∙ ap (λ p. bs ++ p) t.from_pending ∙ sym (append_assoc bs t.taken (r.pending st'));
  }

-- `true` with the end of the header in `accum_`, or the stream has ended and the result tells
-- whether anything has come; too long a header is refused.
module _ {sock : Socket} (cfg : ServerConfig) (r : Reads sock) (limit : ℕ) where
  -- The last read has given no byte, or failed.
  abbrev pub NothingRead : sock.State → Type 0
  NothingRead st' =
      (v : sock.State) × (((sock.async_read v cfg.read_block).0 ≡ got [])
        ⊎ ((sock.async_read v cfg.read_block).0 ≡ failed))
      × (st' ≡ (sock.async_read v cfg.read_block).1)

  abbrev pub HeaderRead : Bytes → sock.State → Outcome (Bytes × sock.State) Bool → Type 0
  HeaderRead accum st (returned b at) =
      Took r accum st at.0 at.1
      × (((find at.0 all_seg_terminate ≢ none) × (b ≡ true))
          ⊎ ((find at.0 all_seg_terminate ≡ none) × (b ≡ not_empty at.0) × NothingRead at.1))
      × (length at.0 ≤ limit)
  HeaderRead accum st (thrown e at) =
      Took r accum st at.0 at.1
      × (e.kind ≡ http_header_too_large)
      × (find at.0 all_seg_terminate ≡ none)
      × (cfg.max_header_bytes < length at.0)
      × (length at.0 ≤ limit)
  HeaderRead accum st fault = ⊥
  HeaderRead accum st starved = ⊥

  HeaderRead-cons :
      (accum bs : Bytes) (st st₁ : sock.State) (o : Outcome (Bytes × sock.State) Bool)
      → r.pending st ≡ bs ++ r.pending st₁
      → HeaderRead (accum ++ bs) st₁ o
      → HeaderRead accum st o
  HeaderRead-cons accum bs st st₁ (returned b at) e (t, x, l) =
      (Took-cons r accum bs st st₁ e t, x, l)
  HeaderRead-cons accum bs st st₁ (thrown ex at) e (t, k, n, m, l) =
      (Took-cons r accum bs st st₁ e t, k, n, m, l)
  HeaderRead-cons accum bs st st₁ fault e h = h
  HeaderRead-cons accum bs st st₁ starved e h = h

  abbrev pub Enough : ℕ → Bytes → Type 0
  Enough fuel accum =
      (0 < fuel) × (cfg.max_header_bytes + 1 < fuel + length accum) × (length accum ≤ limit)

  enough :
      (fuel : ℕ) (accum bs : Bytes)
      → ltb cfg.max_header_bytes (length accum) ≡ false
      → Enough (suc fuel) accum
      → length bs ≤ cfg.read_block
      → cfg.max_header_bytes + cfg.read_block ≤ limit
      → 0 < length bs
      → Enough fuel (accum ++ bs)
  enough fuel accum bs short h fits room positive =
      let short' : length accum ≤ cfg.max_header_bytes = ground arith in
      rw length-append (omega arith, omega arith, omega arith)

  some-ne-none : {o : Option ℕ} {i : ℕ} → o ≡ some i → o ≡ none → ⊥
  some-ne-none e z = cc

  -- The rounds of the loop.
  abbrev pub next : ℕ → Bytes → sock.State → Outcome (Bytes × sock.State) Bool
  next fuel accum st =
      read_some sock cfg st cfg.read_block fault (λ st'. returned (not_empty accum) (accum, st'))
        (λ bs st'. read_until_double_crlf sock cfg fuel (accum ++ bs) st')

  module _ (fuel : ℕ) (accum : Bytes) (st : sock.State) where
    abbrev pub loop : Outcome (Bytes × sock.State) Bool
    loop = read_until_double_crlf sock cfg (suc fuel) accum st

    pub round_found :
        (i : ℕ) → find accum all_seg_terminate ≡ some i → loop ≡ returned true (accum, st)
    unfolding read_until_double_crlf
    round_found i e = rw (e, read_until_double_crlf)

    round_long :
        find accum all_seg_terminate ≡ none
        → ltb cfg.max_header_bytes (length accum) ≡ true
        → loop ≡ thrown (error http_header_too_large (text "headers too large")) (accum, st)
    unfolding read_until_double_crlf
    round_long e long = rw (e, read_until_double_crlf) (rw long)

    pub round_next :
        find accum all_seg_terminate ≡ none
        → ltb cfg.max_header_bytes (length accum) ≡ false
        → loop ≡ next fuel accum st
    unfolding read_until_double_crlf
    round_next e short = rw (e, read_until_double_crlf) (rw short)

  -- With blocks of at most 4096 bytes and `limit` for `max_header_bytes` and one block together, fuel
  -- of more than `max_header_bytes` + 1 - `accum_` rounds is enough. The loop returns `true` with the
  -- end of a header in `accum_`; or returns where a read has given no byte or failed, `true` where
  -- anything has come before; or throws `HttpHeaderTooLarge`, with more than `max_header_bytes` and no end of a header. In all
  -- cases `accum_` grows by just what is taken from the stream, and to at most `limit`.
  pub read_until_double_crlf-HeaderRead :
      (fuel : ℕ) (accum : Bytes) (st : sock.State)
      → cfg.read_block ≤ max_temp_read_buffer
      → cfg.max_header_bytes + cfg.read_block ≤ limit
      → Enough fuel accum
      → HeaderRead accum st (read_until_double_crlf sock cfg fuel accum st)
  read_until_double_crlf-HeaderRead zero accum st small room h = absurd (omega arith)
  read_until_double_crlf-HeaderRead (suc fuel) accum st small room h =
      elim (Option-cases (find accum all_seg_terminate)) [
        | inr (i, e) ↦
            rw (round_found fuel accum st i e)
              (Took-same r accum st st refl, inl (λ z. some-ne-none e z, refl), h.2)
        | inl e ↦ elim (Bool-cases (ltb cfg.max_header_bytes (length accum))) [
          | inl long ↦
              rw (round_long fuel accum st e long)
                (Took-same r accum st st refl, refl, e, ltb→lt _ _ long, h.2)
          | inr short ↦
              rw (round_next fuel accum st e short)
                (elim (read_some-cases cfg r st cfg.read_block fault
                  (λ st'. returned (not_empty accum) (accum, st'))
                  (λ bs st'. read_until_double_crlf sock cfg fuel (accum ++ bs) st') small) [
                    | inl (ended, same, last) ↦
                        rw ended (Took-same r accum st _ same, inr (e, refl, (st, last, refl)), h.2)
                    | inr (b, bs, arrived, fits, from) ↦ rw arrived (
                        HeaderRead-cons accum (b ∷ bs) st _ _ from (
                          read_until_double_crlf-HeaderRead fuel (accum ++ b ∷ bs) _ small room
                            (enough fuel accum (b ∷ bs) short h fits room (omega arith))))
                  ])
        ]
      ]
