-- ===== src/CoroHttp/Writer/Chunks.antt =====
-- What `write_chunked` sends: a head and a chunked body.
use ccnet_utilities.Common.{
  ℕ, zero, suc, ◌+◌, ◌-◌, ◌^◌, ◌≤◌, ◌<◌, min, ◌≡◌, refl, sym, ap, ◌∙◌, subst, ◌≢◌, ◌⊎◌, inl, inr,
  true, false, some, List, [], ◌∷◌, ◌++◌, append_assoc, arith, ltb, Bool-cases, length, drop,
  length-take, length-drop, take-append-drop, All, Bytes, codes, find_byte, substr, ltb→lt,
}
use ccnet_utilities.Common.{Lacks, find_byte-Lacks, drop-drop}
use ccnet_utilities.CoroHttp.Reader.Chunked.{IsSizeLine, Chunked, last, chunk}
use ccnet_utilities.CoroHttp.Reader.{cut_extension}
use ccnet_utilities.CoroHttp.Socket.{Socket, Writes, Accepts}
use ccnet_utilities.CoroHttp.Task.{Outcome, returned}
use ccnet_utilities.CoroHttp.Writer.{write_piece, write_chunks, write_chunked, chunked_response}
use ccnet_utilities.Cpp.Numbers.RoundTrip.{IsDigit, print_digits-IsDigit, stoull_hex-format_hex}
use ccnet_utilities.Cpp.Numbers.{format_hex, digit_char, stoull_hex, print_digits}
use ccnet_utilities.Http.Request.Multipart.{crlf}
use ccnet_utilities.Http.Response.{Response, format_header, status_line}
use ccnet_utilities.Http.ServerConfig.{ServerConfig}
use ccnet_utilities.Http.Version.{HttpVersion, v1_0, v1_1, v_unknown, version_string}

digits-Lacks : (b : ℕ) (s : Bytes) → (b ≡ 13) ⊎ (b ≡ b';') → All (IsDigit 16) s → Lacks b s
digits-Lacks b [] h a = tt
digits-Lacks b (c ∷ s) h ((d, lt, e), a) = (differs b c d h lt e, digits-Lacks b s h a)
  where
    differs : (b c d : ℕ) → (b ≡ 13) ⊎ (b ≡ b';') → d < 16 → c ≡ digit_char d → c ≢ b
    differs b c d h lt e = unfold digit_char in ground arith

format_hex-IsSizeLine : (n : ℕ) → n < 2 ^ 64 → IsSizeLine (format_hex n) n
unfolding format_hex cut_extension
format_hex-IsSizeLine n lt =
    let ds = print_digits-IsDigit (suc n) 16 n [] (omega arith) tt in
    record {
      one_line = digits-Lacks 13 _ (inl refl) ds;
      size =
          rw
            (
              find_byte-Lacks (print_digits (suc n) 16 n []) b';'
                  (digits-Lacks b';' _ (inr refl) ds),
              cut_extension,
            )
            (stoull_hex-format_hex n lt);
    }

zero-IsSizeLine : IsSizeLine (codes "0") 0
unfolding cut_extension stoull_hex find_byte
zero-IsSizeLine = record { one_line = omega arith; size = refl }

length-append_pos :
    (xs ys zs : Bytes) → 0 < length xs → (n : ℕ) × (length ((xs ++ ys) ++ zs) ≡ suc n)
length-append_pos [] ys zs h = absurd (omega arith)
length-append_pos (x ∷ xs) ys zs h = (length ((xs ++ ys) ++ zs), refl)

version_string-pos : (v : HttpVersion) → 0 < length (version_string v)
unfolding version_string
version_string-pos v1_0 = omega arith
version_string-pos v1_1 = omega arith
version_string-pos v_unknown = omega arith

-- A head is never empty.
pub head_size :
    (iterate : List (Bytes × Bytes) → List (Bytes × Bytes)) (r : Response)
    → (n : ℕ) × (length (format_header iterate r) ≡ suc n)
unfolding format_header status_line
head_size iterate r =
    length-append_pos (version_string r.version) _ _ (version_string-pos r.version)

module _ {sock : Socket} (cfg : ServerConfig) (w : Writes sock) (a : Accepts sock)
    (some_block : 0 < cfg.read_block) (in_size_t : cfg.read_block < 2 ^ 64) where
  sent-write_piece :
      (st : sock.State) (bs : Bytes) → w.sent (write_piece sock cfg st bs) ≡ w.sent st ++ bs
  sent-write_piece st bs = (w.wrote_all st bs (a.accepted st bs)).1

  sent-chunk :
      (st : sock.State) (x y z : Bytes)
      → w.sent (write_piece sock cfg (write_piece sock cfg (write_piece sock cfg st x) y) z)
        ≡ w.sent st ++ (x ++ (y ++ z))
  sent-chunk st x y z =
      sent-write_piece (write_piece sock cfg (write_piece sock cfg st x) y) z
      ∙ ap (λ s. s ++ z)
          (sent-write_piece (write_piece sock cfg st x) y
            ∙ ap (λ s. s ++ y) (sent-write_piece st x))
      ∙ simp append_assoc

  -- The loop returns, and has sent a chunked body that carries `b`.
  abbrev pub Sends : Outcome sock.State (Unit {0}) → sock.State → Bytes → Bytes → Type 0
  Sends o st head b =
      (st' : sock.State) × (s : Bytes) × (o ≡ returned tt st')
      × (w.sent st' ≡ w.sent st ++ (head ++ s))
      × Chunked s b

  write_chunks_more :
      (fuel : ℕ) (body : Bytes) (pos : ℕ) (st : sock.State)
      → ltb pos (length body) ≡ true
      → write_chunks sock cfg (suc fuel) body pos st
        ≡ write_chunks sock cfg fuel body (pos + min cfg.read_block (length body - pos)) (
            write_piece sock cfg
              (write_piece sock cfg
                (write_piece sock cfg st
                  (format_hex (min cfg.read_block (length body - pos)) ++ crlf))
                (substr body pos (min cfg.read_block (length body - pos))))
              crlf)
  unfolding write_chunks
  write_chunks_more fuel body pos st lt = rw lt

  write_chunks_end :
      (fuel : ℕ) (body : Bytes) (pos : ℕ) (st : sock.State)
      → ltb pos (length body) ≡ false
      → write_chunks sock cfg (suc fuel) body pos st
        ≡ returned tt (write_piece sock cfg st (codes "0\r\n\r\n"))
  unfolding write_chunks
  write_chunks_end fuel body pos st ge = rw ge

  write_chunks-Sends :
      (fuel : ℕ) (body : Bytes) (pos : ℕ) (st : sock.State)
      → length body - pos < fuel
      → Sends (write_chunks sock cfg fuel body pos st) st [] (drop pos body)
  write_chunks-Sends zero body pos st h = absurd (omega arith)
  write_chunks-Sends (suc fuel) body pos st h = elim (Bool-cases (ltb pos (length body))) [
    | inr ge ↦ (
      write_piece sock cfg st (codes "0\r\n\r\n"),
      codes "0\r\n\r\n",
      write_chunks_end fuel body pos st ge,
      sent-write_piece st (codes "0\r\n\r\n"),
      last (codes "0") refl (drop_beyond pos body (ground arith)) zero-IsSizeLine,
    )
    | inl lt ↦
        let n : ℕ = min cfg.read_block (length body - pos) in
        let inside : pos < length body = ltb→lt _ _ lt in
        let st₁ =
          write_piece sock cfg
            (write_piece sock cfg (write_piece sock cfg st (format_hex n ++ crlf))
              (substr body pos n))
            crlf in
        let len : length (substr body pos n) ≡ n =
          omega (arith, length-take n (drop pos body), length-drop pos body) in
        let (st', s', done, all, rest) = write_chunks-Sends fuel body (pos + n) st₁ (omega arith) in
        (
          st',
          format_hex n ++ crlf ++ substr body pos n ++ crlf ++ s',
          write_chunks_more fuel body pos st lt ∙ done,
          all
              ∙ ap (λ x. x ++ s') (sent-chunk st (format_hex n ++ crlf) (substr body pos n) crlf)
              ∙ simp append_assoc,
          chunk (format_hex n) (substr body pos n) s' (drop (pos + n) body) (simp append_assoc)
              (sym (take-append-drop n (drop pos body))
                ∙ ap (λ x. substr body pos n ++ x) (drop-drop pos n (pos + n) body refl))
              (subst (IsSizeLine (format_hex n)) (sym len) (format_hex-IsSizeLine n (omega arith)))
              (omega (arith, len)) rest,
        )
  ]
    where
      drop_beyond : (pos : ℕ) (body : Bytes) → length body ≤ pos → drop pos body ≡ []
      drop_beyond zero [] h = refl
      drop_beyond zero (c ∷ s) h = absurd (omega arith)
      drop_beyond (suc pos) [] h = refl
      drop_beyond (suc pos) (c ∷ s) h = drop_beyond pos s (omega arith)

  write_chunked_next :
      (fuel n : ℕ) (iterate : List (Bytes × Bytes) → List (Bytes × Bytes)) (resp : Response)
      (st : sock.State)
      → (sock.async_write st (format_header iterate (chunked_response resp))).0 ≡ some (suc n)
      → write_chunked sock cfg fuel iterate resp st
        ≡ write_chunks sock cfg fuel
            (chunked_response resp).body
            0
            (sock.async_write st (format_header iterate (chunked_response resp))).1
  unfolding write_chunked
  write_chunked_next fuel n iterate resp st e = rw (e, write_chunked)

  -- With blocks that are not empty and fit 64 bits, and more fuel than the body has bytes, on a
  -- connection that takes what is written, `write_chunked` returns, and has sent the head and then a
  -- chunked body that carries the body of the response.
  pub write_chunked-Sends :
      (fuel : ℕ) (iterate : List (Bytes × Bytes) → List (Bytes × Bytes)) (resp : Response)
      (st : sock.State)
      → length resp.body < fuel
      → Sends
          (write_chunked sock cfg fuel iterate resp st)
          st
          (format_header iterate (chunked_response resp))
          resp.body
  unfolding chunked_response
  write_chunked-Sends fuel iterate resp st h =
      let head : Bytes = format_header iterate (chunked_response resp) in
      let (n, size) = head_size iterate (chunked_response resp) in
      let st₁ = (sock.async_write st head).1 in
      let (st', s, done, all, w') =
        write_chunks-Sends fuel (chunked_response resp).body 0 st₁ (omega arith) in
      (
        st',
        s,
        write_chunked_next fuel n iterate resp st (a.accepted st head ∙ ap some size) ∙ done,
        all
            ∙ ap (λ x. x ++ s) (w.wrote_all st head (a.accepted st head)).1
            ∙ append_assoc (w.sent st) head s,
        w',
      )
