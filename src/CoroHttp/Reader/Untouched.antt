-- ===== src/CoroHttp/Reader/Untouched.antt =====
-- What the reader leaves as it is: whatever no `async_read` changes.
use ccnet_utilities.Common.{
  ℕ, zero, suc, ◌+◌, ◌-◌, ◌%◌, ◌^◌, min, ◌≡◌, refl, inl, inr, Bool, Option, [], ◌∷◌, ◌++◌, ltb,
  ◌==◌, if◌then◌else◌, Option-cases, length, drop, Bytes, codes, text, equal, find, substr,
}
use ccnet_utilities.CoroHttp.Socket.{Socket, ReadResult, got, failed}
use ccnet_utilities.CoroHttp.Task.Leaves.{Leaves, co_await-Leaves, followed_by-Leaves, if-Leaves}
use ccnet_utilities.CoroHttp.Task.{Outcome, thrown, fault}
use ccnet_utilities.CoroHttp.Reader.{
  read_some, read_until_double_crlf, read_exact, read_more, fill_line, fill_size, append_chunk,
  last_chunk, after_append, one_chunk, after_size_line, decode_loop, decode_chunked_body,
  read_sized_body, read_body, read_request, error, cut_extension, max_temp_read_buffer,
  http_request_path_error,
}
use ccnet_utilities.Cpp.Numbers.{stoull, stoull_hex}
use ccnet_utilities.Http.Exceptions.{Result, ok, err}
use ccnet_utilities.Http.Headers
use ccnet_utilities.Http.Request.{Request}
use ccnet_utilities.Http.Request.Parse.{parse_request}
use ccnet_utilities.Http.Request.Multipart.{crlf, all_seg_terminate}
use ccnet_utilities.Http.ServerConfig.{ServerConfig}
use ccnet_utilities.Utils.Copy.{to_lower_copy}

module _ (sock : Socket) (cfg : ServerConfig) (good : sock.State → Type 0)
    (kept : (st : sock.State) (n : ℕ) → good st → good (sock.async_read st n).1) where
  -- Of a state with further bytes beside the socket.
  abbrev Beside : Bytes × sock.State → Type 0
  Beside s = good s.1

  read_some-Leaves {ℓ κ} :
      {S : Type ℓ} {A : Type κ} (p : S → Type 0) (st : sock.State) (n : ℕ)
      (ended : sock.State → Outcome S A) (more : Bytes → sock.State → Outcome S A)
      → good st
      → ((st' : sock.State) → good st' → Leaves p (ended st'))
      → ((bs : Bytes) (st' : sock.State) → good st' → Leaves p (more bs st'))
      → Leaves p (read_some sock cfg st n fault ended more)
  unfolding read_some
  read_some-Leaves p st n ended more h e m = go (sock.async_read st n).0 refl
    where
      go :
          (res : ReadResult)
          → (sock.async_read st n).0 ≡ res
          → Leaves p (read_some sock cfg st n fault ended more)
      go failed eq = rw (eq, read_some) (e (sock.async_read st n).1 (kept st n h))
      go (got []) eq = rw (eq, read_some) (e (sock.async_read st n).1 (kept st n h))
      go (got (b ∷ bs)) eq =
          rw (eq, read_some)
            (if-Leaves p (ltb max_temp_read_buffer (length (b ∷ bs))) fault _ tt
              (m (b ∷ bs) (sock.async_read st n).1 (kept st n h)))

  read_until_double_crlf-Leaves :
      (fuel : ℕ) (accum : Bytes) (st : sock.State)
      → good st
      → Leaves Beside (read_until_double_crlf sock cfg fuel accum st)
  unfolding read_until_double_crlf
  read_until_double_crlf-Leaves zero accum st h = tt
  read_until_double_crlf-Leaves (suc fuel) accum st h =
      elim (Option-cases (find accum all_seg_terminate)) [
        | inr (i, e) ↦ rw (e, read_until_double_crlf) h
        | inl e ↦
            rw (e, read_until_double_crlf)
              (if-Leaves Beside (ltb cfg.max_header_bytes (length accum)) _ _ h (
                read_some-Leaves Beside st cfg.read_block _ _ h (λ st' g. g)
                  (λ bs st' g. read_until_double_crlf-Leaves fuel (accum ++ bs) st' g)))
      ]

  read_exact-Leaves :
      (fuel : ℕ) (dest : Bytes) (need : ℕ) (st : sock.State)
      → good st
      → Leaves Beside (read_exact sock cfg fuel dest need st)
  unfolding read_exact
  read_exact-Leaves zero dest need st h = tt
  read_exact-Leaves (suc fuel) dest need st h =
      if-Leaves Beside (ltb (length dest) need) _ _
        (read_some-Leaves Beside st (min cfg.read_block (need - length dest)) _ _ h (λ st' g. g)
          (λ bs st' g.
            if-Leaves Beside (ltb cfg.max_body_bytes (length (dest ++ bs))) _ _ g
              (read_exact-Leaves fuel (dest ++ bs) need st' g)))
        h

  read_more-Leaves :
      (buffer : Bytes) (st : sock.State) → good st → Leaves Beside (read_more sock cfg buffer st)
  unfolding read_more
  read_more-Leaves buffer st h =
      read_some-Leaves Beside st cfg.read_block _ _ h (λ st' g. g) (λ bs st' g. g)

  fill_line-Leaves :
      (fuel : ℕ) (buffer : Bytes) (st : sock.State)
      → good st
      → Leaves Beside (fill_line sock cfg fuel buffer st)
  unfolding fill_line
  fill_line-Leaves zero buffer st h = tt
  fill_line-Leaves (suc fuel) buffer st h = elim (Option-cases (find buffer crlf)) [
    | inr (i, e) ↦ rw (e, fill_line) h
    | inl e ↦
        rw (e, fill_line)
          (co_await-Leaves Beside Beside tt (read_more sock cfg buffer st) _
            (read_more-Leaves buffer st h) (λ _ s g. fill_line-Leaves fuel s.0 s.1 g))
  ]

  fill_size-Leaves :
      (fuel need : ℕ) (buffer : Bytes) (st : sock.State)
      → good st
      → Leaves Beside (fill_size sock cfg fuel need buffer st)
  unfolding fill_size
  fill_size-Leaves zero need buffer st h = tt
  fill_size-Leaves (suc fuel) need buffer st h =
      if-Leaves Beside (ltb (length buffer) need) _ _
        (co_await-Leaves Beside Beside tt (read_more sock cfg buffer st) _
          (read_more-Leaves buffer st h) (λ _ s g. fill_size-Leaves fuel need s.0 s.1 g))
        h

  -- The rest of the loop over the chunks.
  abbrev Next : (Bytes → Bytes → sock.State → Outcome sock.State Bytes) → Type 0
  Next next = (out buffer : Bytes) (st : sock.State) → good st → Leaves good (next out buffer st)

  after_append-Leaves :
      (next : Bytes → Bytes → sock.State → Outcome sock.State Bytes) (chunk_size : ℕ)
      (buffer : Bytes) (st : sock.State) (res : Result Bytes)
      → Next next
      → good st
      → Leaves good (after_append sock cfg next chunk_size buffer st res)
  after_append-Leaves next chunk_size buffer st (err e) n h = h
  after_append-Leaves next chunk_size buffer st (ok out) n h =
      n out (drop ((chunk_size + 2) % 2 ^ 64) buffer) st h

  after_size_line-Leaves :
      (next : Bytes → Bytes → sock.State → Outcome sock.State Bytes) (reads : ℕ) (out : Bytes)
      (pos : ℕ) (buffer : Bytes) (st : sock.State)
      → Next next
      → good st
      → Leaves good (after_size_line sock cfg next reads out pos buffer st)
  unfolding after_size_line last_chunk one_chunk
  after_size_line-Leaves next reads out pos buffer st n h =
      elim (Option-cases (stoull_hex (cut_extension (substr buffer 0 pos)))) [
        | inl e ↦ rw (e, after_size_line) h
        | inr (size, e) ↦
            rw (e, after_size_line)
              (if-Leaves good (size == 0) _ _
                (followed_by-Leaves Beside good (λ s. s.1)
                  (fill_size sock cfg reads 2 (drop (pos + 2) buffer) st) _
                  (fill_size-Leaves reads 2 (drop (pos + 2) buffer) st h) (λ s g. g) (λ _ s g. g))
                (followed_by-Leaves Beside good (λ s. s.1)
                  (fill_size sock cfg reads ((size + 2) % 2 ^ 64) (drop (pos + 2) buffer) st) _
                  (fill_size-Leaves reads ((size + 2) % 2 ^ 64) (drop (pos + 2) buffer) st h)
                  (λ s g. g)
                  (λ _ s g.
                    after_append-Leaves next size s.0 s.1 (append_chunk sock cfg out s.0 size) n
                      g)))
      ]

  decode_loop-Leaves :
      (reads rounds : ℕ) (out buffer : Bytes) (st : sock.State)
      → good st
      → Leaves good (decode_loop sock cfg reads rounds out buffer st)
  unfolding decode_loop
  decode_loop-Leaves reads zero out buffer st h = tt
  decode_loop-Leaves reads (suc rounds) out buffer st h =
      followed_by-Leaves Beside good (λ s. s.1) (fill_line sock cfg reads buffer st) _
        (fill_line-Leaves reads buffer st h) (λ s g. g)
        (λ pos s g.
          after_size_line-Leaves _ reads out pos s.0 s.1
            (λ out' buffer' st' g'. decode_loop-Leaves reads rounds out' buffer' st' g') g)

  read_sized_body-Leaves :
      (fuel : ℕ) (content_length : Bytes) (req : Request) (after accum : Bytes) (st : sock.State)
      → good st
      → Leaves Beside (read_sized_body sock cfg fuel content_length req after accum st)
  unfolding read_sized_body
  read_sized_body-Leaves fuel content_length req after accum st h =
      elim (Option-cases (stoull content_length)) [
        | inl e ↦ rw (e, read_sized_body) h
        | inr (n, e) ↦
            rw (e, read_sized_body)
              (if-Leaves Beside (ltb cfg.max_body_bytes n) _ _ h (
                if-Leaves Beside (ltb (length after) n) _ _
                  (co_await-Leaves Beside Beside tt (read_exact sock cfg fuel after n st) _
                    (read_exact-Leaves fuel after n st h) (λ _ s g. g))
                  h))
      ]

  read_body-Leaves :
      (fuel : ℕ) (req : Request) (after accum : Bytes) (st : sock.State)
      → good st
      → Leaves Beside (read_body sock cfg fuel req after accum st)
  unfolding read_body decode_chunked_body
  read_body-Leaves fuel req after accum st h =
      elim (Option-cases (Headers.get req.headers (codes "content-length"))) [
        | inr (text, e) ↦ rw (e, read_body) (read_sized_body-Leaves fuel text req after accum st h)
        | inl e ↦ elim (Option-cases (Headers.get req.headers (codes "transfer-encoding"))) [
          | inl t ↦ rw (e, read_body) (rw t h)
          | inr (encoding, t) ↦
              rw (e, read_body)
                (rw t (
                  if-Leaves Beside (equal (to_lower_copy encoding) (codes "chunked")) _ _
                    (co_await-Leaves good Beside [] (decode_loop sock cfg fuel fuel [] after st) _
                      (decode_loop-Leaves fuel fuel [] after st h) (λ _ s g. g))
                    h))
        ]
      ]

  abbrev after_parse :
      ℕ → ℕ → Bytes × sock.State → Result Request → Outcome (Bytes × sock.State) (Option Request)
  after_parse fuel header_end at (err e) = thrown e at
  after_parse fuel header_end at (ok req) =
      if ltb cfg.max_start_line (length req.path)
      then thrown (error http_request_path_error (text "request path too long")) at
      else read_body sock cfg fuel req (drop (header_end + 4) at.0) at.0 at.1

  after_parse-Leaves :
      (fuel header_end : ℕ) (at : Bytes × sock.State) (res : Result Request)
      → good at.1
      → Leaves Beside (after_parse fuel header_end at res)
  after_parse-Leaves fuel header_end at (err e) h = h
  after_parse-Leaves fuel header_end at (ok req) h =
      if-Leaves Beside (ltb cfg.max_start_line (length req.path)) _ _ h
        (read_body-Leaves fuel req (drop (header_end + 4) at.0) at.0 at.1 h)

  -- What holds of the socket, and is kept by each `async_read`, holds of it behind `read_request`,
  -- however that ends.
  pub read_request-Leaves :
      (uninitialised : Bool) (after_move : Bytes → Bytes) (fuel : ℕ) (accum : Bytes)
      (st : sock.State)
      → good st
      → Leaves Beside (read_request sock cfg uninitialised after_move fuel accum st)
  unfolding read_request
  read_request-Leaves uninitialised after_move fuel accum st h =
      co_await-Leaves Beside Beside uninitialised (read_until_double_crlf sock cfg fuel accum st) _
        (read_until_double_crlf-Leaves fuel accum st h)
        (λ done at g.
          if-Leaves Beside done _ _
            (elim (Option-cases (find at.0 all_seg_terminate)) [
              | inl e ↦ rw e g
              | inr (n, e) ↦
                  rw e (after_parse-Leaves fuel n at (parse_request after_move (substr at.0 0 n)) g)
            ])
            g)
