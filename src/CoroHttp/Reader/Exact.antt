-- ===== src/CoroHttp/Reader/Exact.antt =====
-- `read_exact`, on any stream.
use ccnet_utilities.Common.{ltb→lt}
use ccnet_utilities.Common.{
  ℕ, zero, suc, ◌-◌, ◌≤◌, ◌<◌, min, ◌≡◌, refl, sym, ap, ◌∙◌, subst, ◌⊎◌, inl, inr, true, false, [],
  ◌∷◌, ◌++◌, append_assoc, append-nil, arith, dec_lt, ltb, if◌then◌else◌, within, Bool-cases,
  length, length-append, Bytes, text,
}
use ccnet_utilities.CoroHttp.Reader.Some.{read_some-cases}
use ccnet_utilities.CoroHttp.Reader.{max_temp_read_buffer, read_some, read_exact, error}
use ccnet_utilities.CoroHttp.Socket.{Socket, Reads, got, failed}
use ccnet_utilities.CoroHttp.Task.{Outcome, returned, thrown, fault}
use ccnet_utilities.Http.Exceptions.{HttpException, http_reader_body_error}
use ccnet_utilities.Http.ServerConfig.{ServerConfig}

module _ {sock : Socket} (cfg : ServerConfig) (r : Reads sock) (some_block : 0 < cfg.read_block)
    (small : cfg.read_block ≤ max_temp_read_buffer) where
  abbrev pub eof_error : HttpException
  eof_error = error http_reader_body_error (text "unexpected EOF while reading body")

  abbrev pub large_error : HttpException
  large_error = error http_reader_body_error (text "body too large")

  -- The last read has given no byte, or failed.
  abbrev pub NothingRead : sock.State → Type 0
  NothingRead st' =
      (v : sock.State) × (n : ℕ) × (0 < n)
      × (((sock.async_read v n).0 ≡ got []) ⊎ ((sock.async_read v n).0 ≡ failed))
      × (st' ≡ (sock.async_read v n).1)

  -- It returns just what is needed, within the limit on bodies where it has read anything.
  abbrev pub Filled : Bytes → ℕ → Bytes → Bytes → Type 0
  Filled dest need dest' more =
      (need ≤ length dest')
      × (length dest ≤ need → length dest' ≡ need)
      × ((more ≡ []) ⊎ (length dest' ≤ cfg.max_body_bytes))

  -- It throws at an early end of the stream, or where the limit on bodies is passed.
  abbrev pub Why : HttpException → ℕ → Bytes → sock.State → Type 0
  Why e need dest' st' =
      ((e ≡ eof_error) × (length dest' < need) × NothingRead st')
      ⊎ ((e ≡ large_error) × (cfg.max_body_bytes < length dest'))

  -- What `read_exact` leaves, whether it returns or throws.
  abbrev pub Ends : Outcome (Bytes × sock.State) (Unit {0}) → Bytes → ℕ → sock.State → Type 0
  Ends o dest need st =
      (dest' : Bytes) × (st' : sock.State) × (more : Bytes) × (((o ≡ returned tt (dest', st'))
          × Filled dest need dest' more)
        ⊎ ((e : HttpException) × (o ≡ thrown e (dest', st')) × Why e need dest' st'))
      × (dest' ≡ dest ++ more)
      × (r.pending st ≡ more ++ r.pending st')

  pub read_exact_done :
      (fuel : ℕ) (dest : Bytes) (need : ℕ) (st : sock.State)
      → need ≤ length dest
      → read_exact sock cfg (suc fuel) dest need st ≡ returned tt (dest, st)
  unfolding read_exact
  read_exact_done fuel dest need st h =
      let enough : ltb (length dest) need ≡ false = ground arith in rw enough

  -- The cases of one round, written as `read_exact` has them.
  abbrev pub after_read :
      ℕ → Bytes → ℕ → Bytes → sock.State → Outcome (Bytes × sock.State) (Unit {0})
  after_read fuel dest need bs st' =
      if ltb cfg.max_body_bytes (length (dest ++ bs))
      then thrown (error http_reader_body_error (text "body too large")) (dest ++ bs, st')
      else read_exact sock cfg fuel (dest ++ bs) need st'

  abbrev pub at_eof : Bytes → sock.State → Outcome (Bytes × sock.State) (Unit {0})
  at_eof dest st' =
      thrown (error http_reader_body_error (text "unexpected EOF while reading body")) (dest, st')

  pub read_exact_round :
      (fuel : ℕ) (dest : Bytes) (need : ℕ) (st : sock.State)
      → length dest < need
      → read_exact sock cfg (suc fuel) dest need st
        ≡ read_some sock cfg st
            (min cfg.read_block (need - length dest))
            fault
            (at_eof dest)
            (after_read fuel dest need)
  unfolding read_exact
  read_exact_round fuel dest need st h =
      let short : ltb (length dest) need ≡ true = ground arith in rw short

  -- With blocks of 1 to 4096 bytes, on any stream, `need` - `dest` + 1 rounds of fuel are enough:
  -- `read_exact` returns with `need` bytes in `dest`, or what it had where that was more, and with no
  -- more than `max_body_bytes` where it has read anything; or throws, for an early end where a read has
  -- given no byte or failed and `dest` is short of `need`, or as too large where `dest` is above
  -- `max_body_bytes`. In all cases `dest` has grown by just what was taken from the stream.
  pub read_exact-Ends :
      (fuel : ℕ) (dest : Bytes) (need : ℕ) (st : sock.State)
      → need - length dest < fuel
      → Ends (read_exact sock cfg fuel dest need st) dest need st
  read_exact-Ends zero dest need st h = absurd (omega arith)
  read_exact-Ends (suc fuel) dest need st h = elim (dec_lt (length dest) need) [
    | no enough ↦ (
      dest,
      st,
      [],
      inl (
        read_exact_done fuel dest need st (omega arith),
        (omega arith, λ le. omega arith, inl refl),
      ),
      sym (append-nil dest),
      refl,
    )
    | yes short ↦
        elim (read_some-cases cfg r st (min cfg.read_block (need - length dest)) fault (at_eof dest)
          (after_read fuel dest need) (omega arith)) [
            | inl (e, kept, last) ↦ (
              dest,
              (sock.async_read st (min cfg.read_block (need - length dest))).1,
              [],
              inr (
                eof_error,
                read_exact_round fuel dest need st short ∙ e,
                inl (
                  refl,
                  short,
                  (st, min cfg.read_block (need - length dest), omega arith, last, refl),
                ),
              ),
              sym (append-nil dest),
              kept,
            )
            | inr (b, bs, e, fits, from) ↦
                ends_more fuel dest need b bs st _ (read_exact_round fuel dest need st short ∙ e)
                  from (omega (arith, fits, length-append dest (b ∷ bs)))
                  (read_exact-Ends fuel (dest ++ b ∷ bs) need _
                    (omega (arith, length-append dest (b ∷ bs))))
          ]
  ]
    where
      ends_more :
          (fuel : ℕ) (dest : Bytes) (need b : ℕ) (bs : Bytes) (st st₁ : sock.State)
          → read_exact sock cfg (suc fuel) dest need st ≡ after_read fuel dest need (b ∷ bs) st₁
          → r.pending st ≡ (b ∷ bs) ++ r.pending st₁
          → length (dest ++ b ∷ bs) ≤ need
          → Ends (read_exact sock cfg fuel (dest ++ b ∷ bs) need st₁) (dest ++ b ∷ bs) need st₁
          → Ends (read_exact sock cfg (suc fuel) dest need st) dest need st
      ends_more fuel dest need b bs st st₁ e from fits rest =
          elim (Bool-cases (ltb cfg.max_body_bytes (length (dest ++ b ∷ bs)))) [
            | inl large ↦ (
              dest ++ b ∷ bs,
              st₁,
              b ∷ bs,
              inr (large_error, e ∙ cut_off large, inr (refl, ltb→lt _ _ large)),
              refl,
              from,
            )
            | inr within ↦
                let (dest', st', more, how, kept, pend) = rest in
                subst (λ o. Ends o dest need st) (sym (e ∙ goes_on within))
                  (
                    dest',
                    st',
                    (b ∷ bs) ++ more,
                    (elim how [
                      | inl (read, (long, exact, limit)) ↦
                          inl (read, (long, λ le. exact fits, inr (limited within kept limit)))
                      | inr failure ↦ inr failure
                    ]),
                    kept ∙ append_assoc dest (b ∷ bs) more,
                    from
                        ∙ ap (λ p. (b ∷ bs) ++ p) pend
                        ∙ sym (append_assoc (b ∷ bs) more (r.pending st')),
                  )
          ]
        where
          cut_off :
              ltb cfg.max_body_bytes (length (dest ++ b ∷ bs)) ≡ true
              → after_read fuel dest need (b ∷ bs) st₁
                ≡ thrown
                    (error http_reader_body_error (text "body too large"))
                    (dest ++ b ∷ bs, st₁)
          cut_off large = rw large

          goes_on :
              ltb cfg.max_body_bytes (length (dest ++ b ∷ bs)) ≡ false
              → after_read fuel dest need (b ∷ bs) st₁
                ≡ read_exact sock cfg fuel (dest ++ b ∷ bs) need st₁
          goes_on within = rw within

          limited :
              {dest' more : Bytes}
              → ltb cfg.max_body_bytes (length (dest ++ b ∷ bs)) ≡ false
              → dest' ≡ (dest ++ b ∷ bs) ++ more
              → (more ≡ []) ⊎ (length dest' ≤ cfg.max_body_bytes)
              → length dest' ≤ cfg.max_body_bytes
          limited {dest'} {more} within kept (inl none_more) =
              let short : length (dest ++ b ∷ bs) ≤ cfg.max_body_bytes = ground arith in
              omega
                (arith, ap length kept, length-append (dest ++ b ∷ bs) more, ap length none_more)
          limited within kept (inr le) = le
