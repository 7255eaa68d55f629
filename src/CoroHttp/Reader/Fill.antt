-- ===== src/CoroHttp/Reader/Fill.antt =====
-- The loops of `decode_chunked_body` that wait for more bytes, on a stream that delivers them.
use ccnet_utilities.Common.{
  ℕ, zero, suc, ◌+◌, ◌≤◌, ◌<◌, ◌≡◌, refl, sym, ap, ◌∙◌, ◌≢◌, inl, inr, true, false, none, some, [],
  ◌∷◌, ◌++◌, append_assoc, append-nil, arith, ltb, Bool-cases, Option-cases, length, length-append,
  Bytes, find, ltb→lt,
}
use ccnet_utilities.Common.{find-append, find-Lacks, find-some_le, Lacks}
use ccnet_utilities.CoroHttp.Reader.{
  max_temp_read_buffer, read_some, read_more, fill_line, fill_size,
}
use ccnet_utilities.CoroHttp.Socket.{Socket, Reads, Delivers}
use ccnet_utilities.CoroHttp.Task.{returned}
use ccnet_utilities.Http.Request.Multipart.{crlf}
use ccnet_utilities.Http.ServerConfig.{ServerConfig}

module _ {sock : Socket} (cfg : ServerConfig) (r : Reads sock) (d : Delivers r)
    (some_block : 0 < cfg.read_block) (small : cfg.read_block ≤ max_temp_read_buffer) where
  -- Where bytes are pending, some are put behind the buffer.
  read_more-got :
      (buffer : Bytes) (st : sock.State)
      → r.pending st ≢ []
      → (b : ℕ) × (bs : Bytes) × (st' : sock.State) × (read_more sock cfg buffer st
          ≡ returned tt (buffer ++ b ∷ bs, st'))
        × (r.pending st ≡ (b ∷ bs) ++ r.pending st')
  unfolding read_more read_some
  read_more-got buffer st ne =
      let (b, bs, e) = d.some_got st cfg.read_block some_block ne in
      let fits : length (b ∷ bs) ≤ cfg.read_block = r.got_within st cfg.read_block e in
      let inside : ltb max_temp_read_buffer (length (b ∷ bs)) ≡ false = ground arith in
      (
        b,
        bs,
        (sock.async_read st cfg.read_block).1,
        rw (e, read_more, read_some, inside),
        r.got_pending st cfg.read_block e,
      )

  -- The buffer now holds what `Enough` asks for; buffer and stream spell the same text.
  pub record Filled (buffer : Bytes) (st : sock.State) (need : ℕ) (buffer' : Bytes)
      (st' : sock.State) : Type 0 where
    pub holds : need ≤ length buffer'
    pub same : buffer' ++ r.pending st' ≡ buffer ++ r.pending st
    pub fewer : length (r.pending st') ≤ length (r.pending st)

  Filled-here :
      (buffer : Bytes) (st : sock.State) (need : ℕ)
      → need ≤ length buffer
      → Filled buffer st need buffer st
  Filled-here buffer st need h = record { holds = h; same = refl; fewer = omega arith }

  Filled-more :
      (buffer bs : Bytes) (st st₁ : sock.State) (need : ℕ) {buffer' : Bytes} {st' : sock.State}
      → r.pending st ≡ bs ++ r.pending st₁
      → Filled (buffer ++ bs) st₁ need buffer' st'
      → Filled buffer st need buffer' st'
  Filled-more buffer bs st st₁ need e f = record {
    holds = f.holds;
    same = f.same ∙ rw e (append_assoc buffer bs (r.pending st₁));
    fewer = omega (arith, f.fewer, ap length e, length-append bs (r.pending st₁));
  }

  fill_size_next :
      (fuel need : ℕ) (buffer bs : Bytes) (st st' : sock.State)
      → ltb (length buffer) need ≡ true
      → read_more sock cfg buffer st ≡ returned tt (buffer ++ bs, st')
      → fill_size sock cfg (suc fuel) need buffer st
        ≡ fill_size sock cfg fuel need (buffer ++ bs) st'
  unfolding fill_size
  fill_size_next fuel need buffer bs st st' lt e = rw (lt, e)

  fill_size_done :
      (fuel need : ℕ) (buffer : Bytes) (st : sock.State)
      → ltb (length buffer) need ≡ false
      → fill_size sock cfg (suc fuel) need buffer st ≡ returned tt (buffer, st)
  unfolding fill_size
  fill_size_done fuel need buffer st ge = rw ge

  -- Where buffer and stream together are long enough, the buffer becomes so.
  pub fill_size-Filled :
      (fuel need : ℕ) (buffer : Bytes) (st : sock.State)
      → length (r.pending st) < fuel
      → need ≤ length (buffer ++ r.pending st)
      → (buffer' : Bytes) × (st' : sock.State) × (fill_size sock cfg fuel need buffer st
          ≡ returned tt (buffer', st'))
        × Filled buffer st need buffer' st'
  fill_size-Filled zero need buffer st h k = absurd (omega arith)
  fill_size-Filled (suc fuel) need buffer st h k = elim (Bool-cases (ltb (length buffer) need)) [
    | inr ge ↦ (
      buffer,
      st,
      fill_size_done fuel need buffer st ge,
      Filled-here buffer st need (ground arith),
    )
    | inl lt ↦
        let lt' : length buffer < need = ltb→lt _ _ lt in
        let (b, bs, st₁, e, from) =
          read_more-got buffer st (λ z. shorter buffer (r.pending st) need z lt' k) in
        let (buffer', st', done, f) =
          fill_size-Filled fuel need (buffer ++ b ∷ bs) st₁
            (omega (arith, ap length from, length-append (b ∷ bs) (r.pending st₁)))
            (omega (
              arith,
              length-append buffer (r.pending st),
              ap length from,
              length-append (b ∷ bs) (r.pending st₁),
              length-append (buffer ++ b ∷ bs) (r.pending st₁),
              length-append buffer (b ∷ bs),
            )) in
        (
          buffer',
          st',
          fill_size_next fuel need buffer (b ∷ bs) st st₁ lt e ∙ done,
          Filled-more buffer (b ∷ bs) st st₁ need from f,
        )
  ]
    where
      shorter :
          (buffer pending : Bytes) (need : ℕ)
          → pending ≡ []
          → length buffer < need
          → need ≤ length (buffer ++ pending)
          → ⊥
      shorter buffer pending need z lt k = omega (arith, length-append buffer pending, ap length z)

  fill_line_next :
      (fuel : ℕ) (buffer bs : Bytes) (st st' : sock.State)
      → find buffer crlf ≡ none
      → read_more sock cfg buffer st ≡ returned tt (buffer ++ bs, st')
      → fill_line sock cfg (suc fuel) buffer st ≡ fill_line sock cfg fuel (buffer ++ bs) st'
  unfolding fill_line
  fill_line_next fuel buffer bs st st' miss e = rw (miss, fill_line) (rw e)

  fill_line_done :
      (fuel i : ℕ) (buffer : Bytes) (st : sock.State)
      → find buffer crlf ≡ some i
      → fill_line sock cfg (suc fuel) buffer st ≡ returned i (buffer, st)
  unfolding fill_line
  fill_line_done fuel i buffer st hit = rw (hit, fill_line)

  -- Where a line stands at the front of buffer and stream, it comes into the buffer whole.
  pub fill_line-Filled :
      (fuel : ℕ) (line tail buffer : Bytes) (st : sock.State)
      → length (r.pending st) < fuel
      → Lacks 13 line
      → buffer ++ r.pending st ≡ line ++ 13 ∷ b'\n' ∷ tail
      → (buffer' : Bytes) × (st' : sock.State) × (fill_line sock cfg fuel buffer st
          ≡ returned (length line) (buffer', st'))
        × Filled buffer st (length line + 2) buffer' st'
  fill_line-Filled zero line tail buffer st h l e = absurd (omega arith)
  fill_line-Filled (suc fuel) line tail buffer st h l e = elim (Option-cases (find buffer crlf)) [
    | inr (i, hit) ↦
        let same : i ≡ length line = found buffer (r.pending st) line tail i l e hit in
        (
          buffer,
          st,
          fill_line_done fuel i buffer st hit ∙ ap (λ n. returned n (buffer, st)) same,
          Filled-here buffer st (length line + 2) (omega (arith, find-some_le buffer crlf i hit)),
        )
    | inl miss ↦
        let (b, bs, st₁, more, from) =
          read_more-got buffer st (λ z. missing buffer (r.pending st) line tail z l e miss) in
        let whole : (buffer ++ b ∷ bs) ++ r.pending st₁ ≡ line ++ 13 ∷ b'\n' ∷ tail =
          append_assoc buffer (b ∷ bs) (r.pending st₁) ∙ ap (λ p. buffer ++ p) (sym from) ∙ e in
        let (buffer', st', done, f) =
          fill_line-Filled fuel line tail (buffer ++ b ∷ bs) st₁
            (omega (arith, ap length from, length-append (b ∷ bs) (r.pending st₁))) l whole in
        (
          buffer',
          st',
          fill_line_next fuel buffer (b ∷ bs) st st₁ miss more ∙ done,
          Filled-more buffer (b ∷ bs) st st₁ (length line + 2) from f,
        )
  ]
    where
      found :
          (buffer pending line tail : Bytes) (i : ℕ)
          → Lacks 13 line
          → buffer ++ pending ≡ line ++ 13 ∷ b'\n' ∷ tail
          → find buffer crlf ≡ some i
          → i ≡ length line
      found buffer pending line tail i l e hit =
          let all : find (line ++ 13 ∷ b'\n' ∷ tail) crlf ≡ some i =
            rw (← e) (find-append buffer pending crlf i hit) in
          cc (find-Lacks 13 b'\n' line tail l)

      missing :
          (buffer pending line tail : Bytes)
          → pending ≡ []
          → Lacks 13 line
          → buffer ++ pending ≡ line ++ 13 ∷ b'\n' ∷ tail
          → find buffer crlf ≡ none
          → ⊥
      missing buffer pending line tail z l e miss =
          let whole : buffer ≡ line ++ 13 ∷ b'\n' ∷ tail =
            sym (append-nil buffer) ∙ ap (λ p. buffer ++ p) (sym z) ∙ e in
          let hit : find buffer crlf ≡ some (length line) =
            rw whole (find-Lacks 13 b'\n' line tail l) in
          cc
