-- ===== src/CoroHttp/Reader/Chunked.antt =====
-- `decode_chunked_body` against the format of a chunked body.
use ccnet_utilities.Common.{
  ℕ, zero, suc, ◌+◌, ◌-◌, ◌%◌, ◌^◌, ◌≤◌, ◌<◌, ◌≡◌, sym, ap, ◌∙◌, subst, false, some, [], ◌∷◌, ◌++◌,
  append_assoc, append-nil, arith, ltb, ◌==◌, length, take, drop, length-append, Bytes,
}
use ccnet_utilities.Common.{Lacks, cut_front}
use ccnet_utilities.CoroHttp.Reader.Fill.{fill_line-Filled, fill_size-Filled}
use ccnet_utilities.CoroHttp.Reader.{
  max_temp_read_buffer, max_size, cut_extension, append_chunk, decode_loop, decode_chunked_body,
  after_size_line, after_append, last_chunk, one_chunk, fill_line, fill_size,
}
use ccnet_utilities.CoroHttp.Socket.{Socket, Reads, Delivers}
use ccnet_utilities.CoroHttp.Task.{Outcome, returned}
use ccnet_utilities.Cpp.Numbers.{stoull_hex}
use ccnet_utilities.Http.Exceptions.{ok}
use ccnet_utilities.Http.ServerConfig.{ServerConfig}

-- A line that gives `n` for the size of a chunk, with or without an extension.
pub record IsSizeLine (line : Bytes) (n : ℕ) : Type 0 where
  pub one_line : Lacks 13 line
  pub size : stoull_hex (cut_extension line) ≡ some n

-- The text `s` is a chunked body that carries `b`: chunks that are not empty, each behind a line with
-- its size, then a chunk of size 0 and an empty line.
pub data Chunked : Bytes → Bytes → Type 0 where
  last :
      {s b : Bytes} (line : Bytes)
      → s ≡ line ++ 13 ∷ b'\n' ∷ 13 ∷ b'\n' ∷ []
      → b ≡ []
      → IsSizeLine line 0
      → Chunked s b
  chunk :
      {s b : Bytes} (line c s' b' : Bytes)
      → s ≡ line ++ 13 ∷ b'\n' ∷ (c ++ 13 ∷ b'\n' ∷ s')
      → b ≡ c ++ b'
      → IsSizeLine line (length c)
      → 0 < length c
      → Chunked s' b'
      → Chunked s b

-- Behind a line and its CRLF.
cut_line :
    (line x p t : Bytes)
    → x ++ p ≡ line ++ 13 ∷ b'\n' ∷ t
    → length line + 2 ≤ length x
    → (take (length line) x ≡ line) × (drop (length line + 2) x ++ p ≡ t)
cut_line line x p t e h =
    let n : length line + 2 ≡ length (line ++ 13 ∷ b'\n' ∷ []) =
      omega (arith, length-append line (13 ∷ b'\n' ∷ [])) in
    let whole : x ++ p ≡ (line ++ 13 ∷ b'\n' ∷ []) ++ t =
      e ∙ sym (append_assoc line (13 ∷ b'\n' ∷ []) t) in
    (
      (cut_front line x p (13 ∷ b'\n' ∷ t) e (omega arith)).0,
      rw n (cut_front (line ++ 13 ∷ b'\n' ∷ []) x p t whole (rw (← n) h)).1,
    )

-- The loop has returned `body`, and `rest` is what follows the message: some of it may have come
-- into the buffer, and is gone.
abbrev pub Decoded :
    {sock : Socket} → Reads sock → Outcome sock.State Bytes → Bytes → Bytes → Type 0
Decoded {sock} r o body rest =
    (st' : sock.State) × (lost : Bytes) × (o ≡ returned body st') × (rest ≡ lost ++ r.pending st')

module _ {sock : Socket} (cfg : ServerConfig) (r : Reads sock) (d : Delivers r)
    (some_block : 0 < cfg.read_block) (small : cfg.read_block ≤ max_temp_read_buffer)
    (body_fits : cfg.max_body_bytes + 2 ≤ max_size) where
  module _ (reads rounds : ℕ) (out buffer buffer₁ : Bytes) (st st₁ : sock.State) (line : Bytes)
      (filled : fill_line sock cfg reads buffer st ≡ returned (length line) (buffer₁, st₁))
      (front : take (length line) buffer₁ ≡ line) where
    abbrev rest_of_loop : Bytes → Bytes → sock.State → Outcome sock.State Bytes
    rest_of_loop out' buffer' st' = decode_loop sock cfg reads rounds out' buffer' st'

    to_size_line :
        decode_loop sock cfg reads (suc rounds) out buffer st
        ≡ after_size_line sock cfg rest_of_loop reads out (length line) buffer₁ st₁
    unfolding decode_loop
    to_size_line = rw (filled, decode_loop)

    decode_last :
        (buffer₂ : Bytes) (st₂ : sock.State)
        → stoull_hex (cut_extension line) ≡ some 0
        → fill_size sock cfg reads 2 (drop (length line + 2) buffer₁) st₁
          ≡ returned tt (buffer₂, st₂)
        → decode_loop sock cfg reads (suc rounds) out buffer st ≡ returned out st₂
    unfolding after_size_line last_chunk
    decode_last buffer₂ st₂ e more =
        to_size_line ∙ rw (front, after_size_line) (rw (e, after_size_line) (rw (more, last_chunk)))

    decode_chunk :
        (n : ℕ) (buffer₂ out' : Bytes) (st₂ : sock.State)
        → stoull_hex (cut_extension line) ≡ some n
        → 0 < n
        → fill_size sock cfg reads ((n + 2) % 2 ^ 64) (drop (length line + 2) buffer₁) st₁
          ≡ returned tt (buffer₂, st₂)
        → append_chunk sock cfg out buffer₂ n ≡ ok out'
        → decode_loop sock cfg reads (suc rounds) out buffer st
          ≡ decode_loop sock cfg reads rounds out' (drop ((n + 2) % 2 ^ 64) buffer₂) st₂
    unfolding after_size_line one_chunk
    decode_chunk n buffer₂ out' st₂ e pos more appended =
        let nonzero : (n == 0) ≡ false = ground arith in
        to_size_line
        ∙ rw (front, after_size_line)
            (rw (e, after_size_line)
              (rw nonzero (
                rw (more, one_chunk)
                  (ap (after_append sock cfg rest_of_loop n buffer₂ st₂) appended))))

  append_chunk-ok :
      (out c buffer rest : Bytes)
      → take (length c) buffer ≡ c
      → length (out ++ (c ++ rest)) ≤ cfg.max_body_bytes
      → append_chunk sock cfg out buffer (length c) ≡ ok (out ++ c)
  unfolding append_chunk
  append_chunk-ok out c buffer rest front h =
      let fits : length out + (length c + length rest) ≤ cfg.max_body_bytes =
        omega (arith, length-append out (c ++ rest), length-append c rest) in
      let size : ltb (max_size - length out) (length c) ≡ false = ground arith in
      let body : ltb cfg.max_body_bytes (length (out ++ c)) ≡ false =
        ground (arith, length-append out c) in
      rw (size, front, body)

  Decoded-last :
      {s b : Bytes} (reads rounds : ℕ) (out buffer rest : Bytes) (st : sock.State) (line : Bytes)
      → s ≡ line ++ 13 ∷ b'\n' ∷ 13 ∷ b'\n' ∷ []
      → b ≡ []
      → IsSizeLine line 0
      → length (r.pending st) < reads
      → buffer ++ r.pending st ≡ s ++ rest
      → Decoded r (decode_loop sock cfg reads (suc rounds) out buffer st) (out ++ b) rest
  Decoded-last {s} {b} reads rounds out buffer rest st line es eb size hr e =
      let whole : buffer ++ r.pending st ≡ line ++ 13 ∷ b'\n' ∷ (13 ∷ b'\n' ∷ rest) =
        e ∙ rw es (append_assoc line (13 ∷ b'\n' ∷ 13 ∷ b'\n' ∷ []) rest) in
      let (b₁, st₁, filled, f) =
        fill_line-Filled cfg r d some_block small reads line (13 ∷ b'\n' ∷ rest) buffer st hr
          size.one_line whole in
      let (front, behind) =
        cut_line line b₁ (r.pending st₁) (13 ∷ b'\n' ∷ rest) (f.same ∙ whole) f.holds in
      let (b₂, st₂, filled₂, g) =
        fill_size-Filled cfg r d some_block small reads 2 (drop (length line + 2) b₁) st₁
          (omega (arith, f.fewer)) (rw behind (omega arith)) in
      let left = cut_front (13 ∷ b'\n' ∷ []) b₂ (r.pending st₂) rest (g.same ∙ behind) g.holds in
      (
        st₂,
        drop 2 b₂,
        decode_last reads rounds out buffer b₁ st st₁ line filled front b₂ st₂ size.size filled₂
            ∙ ap (λ x. returned x st₂) (sym (append-nil out) ∙ ap (λ x. out ++ x) (sym eb)),
        sym left.1,
      )

  Decoded-chunk :
      {s b : Bytes} (reads rounds : ℕ) (out buffer rest : Bytes) (st : sock.State)
      (line c s' b' : Bytes)
      → s ≡ line ++ 13 ∷ b'\n' ∷ (c ++ 13 ∷ b'\n' ∷ s')
      → b ≡ c ++ b'
      → IsSizeLine line (length c)
      → 0 < length c
      → length (r.pending st) < reads
      → buffer ++ r.pending st ≡ s ++ rest
      → length (out ++ b) ≤ cfg.max_body_bytes
      → ((buffer' : Bytes) (st' : sock.State)
          → length (r.pending st') < reads
          → buffer' ++ r.pending st' ≡ s' ++ rest
          → Decoded r
              (decode_loop sock cfg reads rounds (out ++ c) buffer' st')
              ((out ++ c) ++ b')
              rest)
      → Decoded r (decode_loop sock cfg reads (suc rounds) out buffer st) (out ++ b) rest
  Decoded-chunk {s} {b} reads rounds out buffer rest st line c s' b' es eb size pos hr e fits ih =
      let tail : Bytes = c ++ 13 ∷ b'\n' ∷ (s' ++ rest) in
      let whole : buffer ++ r.pending st ≡ line ++ 13 ∷ b'\n' ∷ tail =
        e ∙ rw es (simp append_assoc) in
      let (b₁, st₁, filled, f) =
        fill_line-Filled cfg r d some_block small reads line tail buffer st hr size.one_line
          whole in
      let (front, behind) = cut_line line b₁ (r.pending st₁) tail (f.same ∙ whole) f.holds in
      let no_wrap : (length c + 2) % 2 ^ 64 ≡ length c + 2 =
        omega (arith, ap length eb, length-append out b, length-append c b') in
      let (b₂, st₂, filled₂, g) =
        fill_size-Filled cfg r d some_block small reads (length c + 2) (drop (length line + 2) b₁)
          st₁ (omega (arith, f.fewer))
          (rw behind (omega (arith, length-append c (13 ∷ b'\n' ∷ (s' ++ rest))))) in
      let (chunk_front, left) =
        cut_line c b₂ (r.pending st₂) (s' ++ rest) (g.same ∙ behind) g.holds in
      let appended =
        append_chunk-ok out c b₂ b' chunk_front
          (subst (λ x. length (out ++ x) ≤ cfg.max_body_bytes) eb fits) in
      let step =
        decode_chunk reads rounds out buffer b₁ st st₁ line filled front (length c) b₂ (out ++ c)
          st₂ size.size pos
          (subst
            (λ n.
              fill_size sock cfg reads n (drop (length line + 2) b₁) st₁ ≡ returned tt (b₂, st₂))
            (sym no_wrap) filled₂)
          appended in
      let (st', lost, done, kept) =
        ih (drop (length c + 2) b₂) st₂ (omega (arith, f.fewer, g.fewer)) left in
      (
        st',
        lost,
        step
            ∙ ap (λ n. decode_loop sock cfg reads rounds (out ++ c) (drop n b₂) st₂) no_wrap
            ∙ done
            ∙ ap (λ x. returned x st') (append_assoc out c b' ∙ ap (λ x. out ++ x) (sym eb)),
        kept,
      )

  -- A chunked body is decoded to what it carries, however the stream cuts it, with one read for each
  -- byte that is pending and one round for each byte of the body as fuel.
  decode_loop-Chunked :
      {s b : Bytes} (reads rounds : ℕ) (out buffer rest : Bytes) (st : sock.State)
      → Chunked s b
      → length (r.pending st) < reads
      → length b < rounds
      → buffer ++ r.pending st ≡ s ++ rest
      → length (out ++ b) ≤ cfg.max_body_bytes
      → Decoded r (decode_loop sock cfg reads rounds out buffer st) (out ++ b) rest
  decode_loop-Chunked reads zero out buffer rest st w hr hb e fits = absurd (omega arith)
  decode_loop-Chunked reads (suc rounds) out buffer rest st (last line es eb size) hr hb e fits =
      Decoded-last reads rounds out buffer rest st line es eb size hr e
  decode_loop-Chunked {s} {b} reads (suc rounds) out buffer rest st
        (chunk line c s' b' es eb size pos w) hr hb e fits =
      let fewer : length b' < rounds = omega (arith, ap length eb, length-append c b') in
      let fits' : length ((out ++ c) ++ b') ≤ cfg.max_body_bytes =
        rw append_assoc (subst (λ x. length (out ++ x) ≤ cfg.max_body_bytes) eb fits) in
      Decoded-chunk reads rounds out buffer rest st line c s' b' es eb size pos hr e fits
        (λ buffer' st' hr' e'.
          decode_loop-Chunked reads rounds (out ++ c) buffer' rest st' w hr' fewer e' fits')

  -- On a stream that delivers, a chunked body within `max_body_bytes`, whose first part `prefix` came
  -- with the header, is decoded to what it carries, however the stream cuts it; the bytes not taken are
  -- an end of what follows it. The blocks are of 1 to 4096 bytes, and the fuel is above the lengths of
  -- the stream and of what is carried.
  pub decode_chunked_body-Chunked :
      {s b : Bytes} (fuel : ℕ) (prefix rest : Bytes) (st : sock.State)
      → Chunked s b
      → length (r.pending st) < fuel
      → length b < fuel
      → prefix ++ r.pending st ≡ s ++ rest
      → length b ≤ cfg.max_body_bytes
      → Decoded r (decode_chunked_body sock cfg fuel prefix st) b rest
  unfolding decode_chunked_body
  decode_chunked_body-Chunked fuel prefix rest st w hr hb e fits =
      decode_loop-Chunked fuel fuel [] prefix rest st w hr hb e fits
