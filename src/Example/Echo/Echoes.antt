-- ===== src/Example/Echo/Echoes.antt =====
-- What a client of the echo server gets back.
use ccnet_utilities.Common.{
  ℕ, zero, suc, ◌<◌, ◌≡◌, refl, sym, ap, ◌∙◌, ◌≢◌, ◌⊎◌, inl, inr, true, Option, some, [], ◌∷◌, ◌++◌,
  append_assoc, append-nil, arith, Bool-cases, length, length-append, Bytes,
}
use ccnet_utilities.CoroHttp.Socket.{
  Socket, ReadResult, got, failed, Reads, Delivers, Writes, Accepts, Duplex,
}
use ccnet_utilities.Example.Echo.{buffer_size, welcome, is_quit, echo_loop, handle_client}

empty_or_not : (s : Bytes) → (s ≡ []) ⊎ (s ≢ [])
empty_or_not [] = inl refl
empty_or_not (b ∷ s) = inr (λ e. cc)

is_quit-true : (s : Bytes) → is_quit s ≡ true → (c : ℕ) × (s ≡ b'q' ∷ c ∷ [])
unfolding is_quit
is_quit-true [] e = absurd cc
is_quit-true (b ∷ []) e = absurd cc
is_quit-true (b ∷ c ∷ []) e = (c, ap (λ x. x ∷ c ∷ []) (ground arith))
is_quit-true (b ∷ c ∷ d ∷ s) e = absurd cc

-- What the server leaves unanswered: nothing, or a text that starts with `q` and one more byte.
abbrev pub Over : Bytes → Type 0
Over rest = (rest ≡ []) ⊎ ((c : ℕ) × (left : Bytes) × (rest ≡ b'q' ∷ c ∷ left))

module _ {sock : Socket} {r : Reads sock} {w : Writes sock} (d : Delivers r) (a : Accepts sock)
    (duplex : Duplex r w) (close : sock.State → sock.State) where
  -- The coroutine ends, behind `front` and what was echoed.
  abbrev pub Echoes : Option sock.State → sock.State → Bytes → Type 0
  Echoes o st front =
      (echoed : Bytes) × (rest : Bytes) × (st' : sock.State) × (o ≡ some (close st'))
      × (w.sent st' ≡ w.sent st ++ (front ++ echoed))
      × (r.pending st ≡ echoed ++ rest)
      × Over rest

  none_left :
      (st : sock.State)
      → ((b : ℕ) (bs : Bytes) → (sock.async_read st buffer_size).0 ≢ got (b ∷ bs))
      → r.pending st ≡ []
  none_left st h = elim (empty_or_not (r.pending st)) [
    | inl e ↦ e
    | inr ne ↦ let (b, bs, e) = d.some_got st buffer_size (omega arith) ne in absurd (h b bs e)
  ]

  ends_here :
      (fuel : ℕ) (st : sock.State)
      → echo_loop sock close (suc fuel) st ≡ some (close (sock.async_read st buffer_size).1)
      → r.pending st ≡ []
      → Echoes (echo_loop sock close (suc fuel) st) st []
  ends_here fuel st e none_pending = (
    [],
    [],
    (sock.async_read st buffer_size).1,
    e,
    duplex.read_sent st buffer_size ∙ sym (append-nil (w.sent st)),
    none_pending,
    inl refl,
  )

  echo_loop-Echoes :
      (fuel : ℕ) (st : sock.State)
      → length (r.pending st) < fuel
      → Echoes (echo_loop sock close fuel st) st []
  unfolding echo_loop
  echo_loop-Echoes zero st h = absurd (omega arith)
  echo_loop-Echoes (suc fuel) st h =
      go (sock.async_read st buffer_size).0 refl (λ st₁ lt. echo_loop-Echoes fuel st₁ lt)
    where
      go :
          (res : ReadResult)
          → (sock.async_read st buffer_size).0 ≡ res
          → ((st₁ : sock.State)
              → length (r.pending st₁) < fuel
              → Echoes (echo_loop sock close fuel st₁) st₁ [])
          → Echoes (echo_loop sock close (suc fuel) st) st []
      go failed e ih = ends_here fuel st (rw (e, echo_loop) refl) (none_left st (λ b bs x. cc))
      go (got []) e ih = ends_here fuel st (rw (e, echo_loop) refl) (none_left st (λ b bs x. cc))
      go (got (b ∷ bs)) e ih = elim (Bool-cases (is_quit (b ∷ bs))) [
        | inl quit ↦
            let (c, two) = is_quit-true (b ∷ bs) quit in
            (
              [],
              (b ∷ bs) ++ r.pending (sock.async_read st buffer_size).1,
              (sock.async_read st buffer_size).1,
              rw (e, echo_loop) (rw quit refl),
              duplex.read_sent st buffer_size ∙ sym (append-nil (w.sent st)),
              r.got_pending st buffer_size e,
              inr (
                c,
                r.pending (sock.async_read st buffer_size).1,
                ap (λ x. x ++ r.pending (sock.async_read st buffer_size).1) two,
              ),
            )
        | inr other ↦
            let st₁ : sock.State = (sock.async_read st buffer_size).1 in
            let st₂ : sock.State = (sock.async_write st₁ (b ∷ bs)).1 in
            let came : r.pending st ≡ (b ∷ bs) ++ r.pending st₁ = r.got_pending st buffer_size e in
            let same : r.pending st₂ ≡ r.pending st₁ = duplex.write_pending st₁ (b ∷ bs) in
            let put : w.sent st₂ ≡ w.sent st ++ (b ∷ bs) =
              (w.wrote_all st₁ (b ∷ bs) (a.accepted st₁ (b ∷ bs))).1
              ∙ ap (λ x. x ++ (b ∷ bs)) (duplex.read_sent st buffer_size) in
            let (echoed, rest, st', done, sent, cut, over) = ih st₂ (
              omega
                (arith, ap length came, ap length same, length-append (b ∷ bs) (r.pending st₁))) in
            (
              (b ∷ bs) ++ echoed,
              rest,
              st',
              rw (e, echo_loop) (rw other done),
              sent ∙ ap (λ x. x ++ echoed) put ∙ append_assoc (w.sent st) (b ∷ bs) echoed,
              came
                  ∙ ap (λ x. (b ∷ bs) ++ x) (sym same ∙ cut)
                  ∙ sym (append_assoc (b ∷ bs) echoed rest),
              over,
            )
      ]

  -- On a connection that does not fail and takes what is written, with more rounds than bytes to
  -- come, the coroutine ends and closes the socket. It has sent the welcome and then, byte for byte,
  -- all that the client has sent, or a front part of it behind which `q` and one more byte follow.
  pub handle_client-Echoes :
      (fuel : ℕ) (st : sock.State)
      → length (r.pending st) < fuel
      → Echoes (handle_client sock close fuel st) st welcome
  unfolding handle_client
  handle_client-Echoes fuel st h =
      let st₁ : sock.State = (sock.async_write st welcome).1 in
      let same : r.pending st₁ ≡ r.pending st = duplex.write_pending st welcome in
      let (echoed, rest, st', done, sent, cut, over) =
        echo_loop-Echoes fuel st₁ (omega (arith, ap length same)) in
      (
        echoed,
        rest,
        st',
        done,
        sent
            ∙ ap (λ x. x ++ echoed) (w.wrote_all st welcome (a.accepted st welcome)).1
            ∙ append_assoc (w.sent st) welcome echoed,
        sym same ∙ cut,
        over,
      )
