-- ===== src/CoroHttp/Reader/Body.antt =====
-- A body with a content length, read by `read_exact`.
use ccnet_utilities.Common.{
  ℕ, zero, suc, ◌-◌, ◌≤◌, ◌<◌, min, ◌≡◌, refl, sym, ap, ◌∙◌, ◌⊎◌, inl, inr, true, false, some, ◌∷◌,
  ◌++◌, append_assoc, arith, dec_lt, ltb, length, take, length-append, Bytes,
}
use ccnet_utilities.Common.{take_all, take-append_le}
use ccnet_utilities.CoroHttp.Reader.Exact.{read_exact_done, read_exact_round, read_exact-Ends}
use ccnet_utilities.CoroHttp.Reader.{
  max_temp_read_buffer, read_some, read_exact, read_sized_body, with_body, Reply,
}
use ccnet_utilities.CoroHttp.Socket.{Socket, Reads, Delivers}
use ccnet_utilities.CoroHttp.Task.{Outcome, returned, thrown}
use ccnet_utilities.Cpp.Numbers.{stoull}
use ccnet_utilities.Http.Exceptions.{HttpException}
use ccnet_utilities.Http.Request.{Request}
use ccnet_utilities.Http.ServerConfig.{ServerConfig}

module _ {sock : Socket} (cfg : ServerConfig) (r : Reads sock) (some_block : 0 < cfg.read_block)
    (small : cfg.read_block ≤ max_temp_read_buffer) where
  -- `dest` was long enough to begin with, or what has come is joined to it.
  abbrev Whole : Outcome (Bytes × sock.State) (Unit {0}) → Bytes → ℕ → sock.State → Type 0
  Whole o dest need st =
      (dest' : Bytes) × (st' : sock.State) × (o ≡ returned tt (dest', st'))
      × (length dest' ≡ need)
      × (dest' ++ r.pending st' ≡ dest ++ r.pending st)

  read_exact_more :
      (d : Delivers r) (fuel : ℕ) (dest : Bytes) (need : ℕ) (st : sock.State)
      → length dest < need
      → need ≤ cfg.max_body_bytes
      → need ≤ length (dest ++ r.pending st)
      → (b : ℕ) × (bs : Bytes) × (st₁ : sock.State) × (read_exact sock cfg (suc fuel) dest need st
          ≡ read_exact sock cfg fuel (dest ++ b ∷ bs) need st₁)
        × (length (dest ++ b ∷ bs) ≤ need)
        × ((dest ++ b ∷ bs) ++ r.pending st₁ ≡ dest ++ r.pending st)
  unfolding read_some
  read_exact_more d fuel dest need st short body enough =
      let n : ℕ = min cfg.read_block (need - length dest) in
      let (b, bs, e) =
        d.some_got st n (omega arith)
          (λ z. absurd (omega (arith, length-append dest (r.pending st), ap length z))) in
      let fits : length (b ∷ bs) ≤ n = r.got_within st n e in
      let inside : ltb max_temp_read_buffer (length (b ∷ bs)) ≡ false = ground arith in
      let size : length (dest ++ b ∷ bs) ≤ need = omega (arith, length-append dest (b ∷ bs)) in
      let within : ltb cfg.max_body_bytes (length (dest ++ b ∷ bs)) ≡ false = ground arith in
      (
        b,
        bs,
        (sock.async_read st n).1,
        read_exact_round cfg r some_block small fuel dest need st short
            ∙ rw (e, read_some, inside, within) refl,
        size,
        append_assoc dest (b ∷ bs) (r.pending (sock.async_read st n).1)
            ∙ ap (λ p. dest ++ p) (sym (r.got_pending st n e)),
      )

  read_exact-Whole :
      (d : Delivers r) (fuel : ℕ) (dest : Bytes) (need : ℕ) (st : sock.State)
      → need - length dest < fuel
      → length dest ≤ need
      → need ≤ cfg.max_body_bytes
      → need ≤ length (dest ++ r.pending st)
      → Whole (read_exact sock cfg fuel dest need st) dest need st
  read_exact-Whole d zero dest need st h le body enough = absurd (omega arith)
  read_exact-Whole d (suc fuel) dest need st h le body enough = elim (dec_lt (length dest) need) [
    | no full ↦ (
      dest,
      st,
      read_exact_done cfg r some_block small fuel dest need st (omega arith),
      omega arith,
      refl,
    )
    | yes short ↦
        let (b, bs, st₁, step, le', same) = read_exact_more d fuel dest need st short body enough in
        let (dest', st', done, size, same') =
          read_exact-Whole d fuel (dest ++ b ∷ bs) need st₁
            (omega (arith, length-append dest (b ∷ bs))) le' body (omega (arith, ap length same)) in
        (dest', st', step ∙ done, size, same' ∙ same)
  ]

  -- The request with the first `n` bytes of `seen` for its body.
  abbrev pub request_with : Request → ℕ → Bytes → Request
  request_with req n seen = record req { body = take n seen }

  with_body_lem :
      (req : Request) (seen : Bytes) (n : ℕ)
      → with_body sock cfg req seen n ≡ request_with req n seen
  with_body_lem req seen n = elim (dec_lt n (length seen)) [
    | yes long ↦ (let cut : ltb n (length seen) ≡ true = ground arith in rw cut)
    | no short ↦
        (let uncut : ltb n (length seen) ≡ false = ground arith in
          rw (uncut, take_all n seen (omega arith)))
  ]

  -- What `read_sized_body` returns for the bytes that were read.
  abbrev pub reply : Request → ℕ → Bytes → Bytes → sock.State → Reply sock cfg
  reply req n seen accum st' = returned (some (request_with req n seen)) (accum, st')

  read_sized_body_here :
      (fuel n : ℕ) (content_length : Bytes) (req : Request) (after accum : Bytes) (st : sock.State)
      → stoull content_length ≡ some n
      → n ≤ cfg.max_body_bytes
      → n ≤ length after
      → read_sized_body sock cfg fuel content_length req after accum st ≡ reply req n after accum st
  unfolding read_sized_body
  read_sized_body_here fuel n content_length req after accum st e body le =
      let within : ltb cfg.max_body_bytes n ≡ false = ground arith in
      let there : ltb (length after) n ≡ false = ground arith in
      rw (e, read_sized_body, within, there)
        (ap (λ q. returned (some q) (accum, st)) (with_body_lem req after n))

  -- `co_await` goes on behind `read_exact` however that ends.
  read_sized_body_read :
      (fuel n : ℕ) (content_length : Bytes) (req : Request) (after accum seen : Bytes)
      (st st' : sock.State)
      → stoull content_length ≡ some n
      → n ≤ cfg.max_body_bytes
      → length after < n
      → (read_exact sock cfg fuel after n st ≡ returned tt (seen, st'))
        ⊎ ((e : HttpException) × (read_exact sock cfg fuel after n st ≡ thrown e (seen, st')))
      → read_sized_body sock cfg fuel content_length req after accum st ≡ reply req n seen accum st'
  unfolding read_sized_body
  read_sized_body_read fuel n content_length req after accum seen st st' e body lt how =
      let within : ltb cfg.max_body_bytes n ≡ false = ground arith in
      let short : ltb (length after) n ≡ true = ground arith in
      let same = ap (λ q. returned (some q) (accum, st')) (with_body_lem req seen n) in
      elim how [
        | inl read ↦ rw (e, read_sized_body, within, short, read) same
        | inr (x, read) ↦ rw (e, read_sized_body, within, short, read) same
      ]

  -- With blocks of 1 to 4096 bytes and enough fuel, whatever the stream does: where the `content-length` spells a number that is not above
  -- `max_body_bytes`, a request comes back and no error does. Its body is at most that number of the
  -- bytes that were read, also where the stream ended before they all were there.
  pub read_sized_body_any :
      (fuel n : ℕ) (content_length : Bytes) (req : Request) (after accum : Bytes) (st : sock.State)
      → stoull content_length ≡ some n
      → n ≤ cfg.max_body_bytes
      → n < fuel
      → (seen : Bytes) × (st' : sock.State) × (read_sized_body sock cfg fuel content_length req
            after accum st
          ≡ reply req n seen accum st')
        × (seen ++ r.pending st' ≡ after ++ r.pending st)
  read_sized_body_any fuel n content_length req after accum st e body h =
      elim (dec_lt (length after) n) [
        | no there ↦ (
          after,
          st,
          read_sized_body_here fuel n content_length req after accum st e body (omega arith),
          refl,
        )
        | yes short ↦
            let (seen, st', more, how, all, pend) =
              read_exact-Ends cfg r some_block small fuel after n st (omega arith) in
            (
              seen,
              st',
              read_sized_body_read fuel n content_length req after accum seen st st' e body short
                  (elim how [
                    | inl (read, long) ↦ inl read
                    | inr (x, thrown_read, why) ↦ inr (x, thrown_read)
                  ]),
              ap (λ s. s ++ r.pending st') all
                  ∙ append_assoc after more (r.pending st')
                  ∙ ap (λ p. after ++ p) (sym pend),
            )
      ]

  -- Where the stream delivers, and `content-length` spells `n`, which is within `max_body_bytes` and
  -- the bytes to come, the body is exactly the next `n` bytes of the connection: those that came with
  -- the header, then those that follow. The blocks are of 1 to 4096 bytes, and the fuel is above `n`.
  pub read_sized_body-take :
      (fuel n : ℕ) (content_length : Bytes) (req : Request) (after accum : Bytes) (st : sock.State)
      → Delivers r
      → stoull content_length ≡ some n
      → n ≤ cfg.max_body_bytes
      → n < fuel
      → n ≤ length (after ++ r.pending st)
      → (st' : sock.State) × (read_sized_body sock cfg fuel content_length req after accum st
          ≡ reply req n (after ++ r.pending st) accum st')
  read_sized_body-take fuel n content_length req after accum st d e body h enough =
      elim (dec_lt (length after) n) [
        | no there ↦ (
          st,
          read_sized_body_here fuel n content_length req after accum st e body (omega arith)
              ∙ ap (λ s. returned (some (record req { body = s })) (accum, st))
                  (sym (take-append_le n after (r.pending st) (omega arith))),
        )
        | yes short ↦
            let (seen, st', read, size, same) =
              read_exact-Whole d fuel after n st (omega arith) (omega arith) body enough in
            (
              st',
              read_sized_body_read fuel n content_length req after accum seen st st' e body short
                    (inl read)
                  ∙ ap (λ s. returned (some (record req { body = s })) (accum, st'))
                      (sym (take-append_le n seen (r.pending st') (omega arith))
                        ∙ ap (λ s. take n s) same),
            )
      ]
