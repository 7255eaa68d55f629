-- ===== src/Sockets/Coro/Writing.antt =====
-- `async_write` on a stream: it ends, with all of the buffer sent or a front part of it.
use ccnet_utilities.Common.{
  take-plus, ℕ, zero, suc, ◌+◌, ◌-◌, ◌≤◌, ◌<◌, ◌≡◌, refl, sym, ap, ◌∙◌, subst, inl, inr, true,
  false, none, some, [], ◌∷◌, ◌++◌, append_assoc, append-nil, arith, dec_lt, ltb, if◌then◌else◌,
  Bool-cases, length, take, drop, length-drop, take-append-drop, Bytes,
}
use ccnet_utilities.Common.{ℤ, drop-drop}
use ccnet_utilities.CoroHttp.Socket.{WriteResult}
use ccnet_utilities.Platform.Events.{monitor_write}
use ccnet_utilities.Sockets.Coro.Stream.{Stream}
use ccnet_utilities.Sockets.Coro.{Async, World, async_write, then_do}
use ccnet_utilities.Sockets.Sys.{
  Errno, eintr, eagain, ewouldblock, other, Call, returned, failed, would_block, Ended, ended,
  send_loop, is_valid_socket_raw,
}
use ccnet_utilities.Sockets.Sys

module _ {sys : Async} {fd : ℤ} (s : Stream sys fd) where
  -- The call of `send` for `bs` that failed, and that leaves `w'`.
  abbrev pub Refused : Bytes → World sys → Type 0
  Refused bs w' =
      (v : World sys) × (n : ℕ) × ((sys.os.send v fd bs).0 ≡ failed (other n))
      × (w' ≡ (sys.os.send v fd bs).1)

  -- What a call of `write` gives.
  abbrev pub Wrote : World sys → Bytes → Call ℕ → World sys → Type 0
  Wrote w bs (returned n) w' =
      (n ≤ length bs)
      × (s.sent w' ≡ s.sent w ++ take n bs)
      × (n ≡ 0 → bs ≡ [])
      × (s.patience w' ≤ s.patience w)
  Wrote w bs (failed e) w' =
      (s.sent w' ≡ s.sent w)
      × (would_block e ≡ true → s.patience w' < s.patience w)
      × (would_block e ≡ false → Refused bs w')

  abbrev pub WriteEnds : Ended (World sys) (Call ℕ) → World sys → Bytes → Type 0
  WriteEnds o w bs = (res : Call ℕ) × (w' : World sys) × (o ≡ ended res w') × Wrote w bs res w'

  Wrote-later :
      (w w₁ w' : World sys) (bs : Bytes) (res : Call ℕ)
      → s.sent w₁ ≡ s.sent w
      → s.patience w₁ < s.patience w
      → Wrote w₁ bs res w'
      → Wrote w bs res w'
  Wrote-later w w₁ w' bs (returned n) e lt (le, all, none_left, less) =
      (le, all ∙ ap (λ t. t ++ take n bs) e, none_left, omega arith)
  Wrote-later w w₁ w' bs (failed x) e lt r = (r.0 ∙ e, λ b. omega (arith, r.1 b), r.2)

  abbrev after_send : ℕ → Bytes → Call ℕ → World sys → Ended (World sys) (Call ℕ)
  after_send fuel bs (returned n) w = ended (returned n) w
  after_send fuel bs (failed eintr) w = send_loop sys.os fuel fd bs w
  after_send fuel bs (failed eagain) w = ended (failed eagain) w
  after_send fuel bs (failed ewouldblock) w = ended (failed ewouldblock) w
  after_send fuel bs (failed (other k)) w = ended (failed (other k)) w

  send_loop_round :
      (fuel : ℕ) (bs : Bytes) (w : World sys) (res : Call ℕ)
      → (sys.os.send w fd bs).0 ≡ res
      → send_loop sys.os (suc fuel) fd bs w ≡ after_send fuel bs res (sys.os.send w fd bs).1
  unfolding send_loop
  send_loop_round fuel bs w (returned n) e = rw (e, send_loop) refl
  send_loop_round fuel bs w (failed eintr) e = rw (e, send_loop) refl
  send_loop_round fuel bs w (failed eagain) e = rw (e, send_loop) refl
  send_loop_round fuel bs w (failed ewouldblock) e = rw (e, send_loop) refl
  send_loop_round fuel bs w (failed (other k)) e = rw (e, send_loop) refl

  zero-returned :
      (w : World sys) (bs : Bytes) (n : ℕ) → (sys.os.send w fd bs).0 ≡ returned n → n ≡ 0 → bs ≡ []
  zero-returned w bs n e z = s.wrote_some w bs (e ∙ ap returned z)

  returned-Wrote :
      (w : World sys) (bs : Bytes) (n : ℕ)
      → (sys.os.send w fd bs).0 ≡ returned n
      → Wrote w bs (returned n) (sys.os.send w fd bs).1
  returned-Wrote w bs n e =
      let (le, all, less) = s.wrote w bs e in (le, all, zero-returned w bs n e, less)

  failed-Wrote :
      (w : World sys) (bs : Bytes) (x : Errno)
      → (sys.os.send w fd bs).0 ≡ failed x
      → (would_block x ≡ false → Refused bs (sys.os.send w fd bs).1)
      → Wrote w bs (failed x) (sys.os.send w fd bs).1
  failed-Wrote w bs x e refused = (s.not_wrote w bs e, λ b. s.send_again w bs e (inr b), refused)

  eagain-blocks : would_block eagain ≡ false → ⊥
  unfolding would_block
  eagain-blocks e = cc

  ewouldblock-blocks : would_block ewouldblock ≡ false → ⊥
  unfolding would_block
  ewouldblock-blocks e = cc

  send_loop-WriteEnds :
      (fuel : ℕ) (bs : Bytes) (w : World sys)
      → s.patience w < fuel
      → WriteEnds (send_loop sys.os fuel fd bs w) w bs
  send_loop-WriteEnds zero bs w h = absurd (omega arith)
  send_loop-WriteEnds (suc fuel) bs w h =
      go (sys.os.send w fd bs).0 refl (λ lt. send_loop-WriteEnds fuel bs (sys.os.send w fd bs).1 lt)
    where
      go :
          (res : Call ℕ)
          → (sys.os.send w fd bs).0 ≡ res
          → (s.patience (sys.os.send w fd bs).1 < fuel
              → WriteEnds
                  (send_loop sys.os fuel fd bs (sys.os.send w fd bs).1)
                  (sys.os.send w fd bs).1
                  bs)
          → WriteEnds (send_loop sys.os (suc fuel) fd bs w) w bs
      go (returned n) e ih =
          (_, _, send_loop_round fuel bs w (returned n) e, returned-Wrote w bs n e)
      go (failed eintr) e ih =
          let less = s.send_again w bs e (inl refl) in
          let (res, w', done, r) = ih (omega (arith, less)) in
          (
            res,
            w',
            send_loop_round fuel bs w (failed eintr) e ∙ done,
            Wrote-later w (sys.os.send w fd bs).1 w' bs res (s.not_wrote w bs e) less r,
          )
      go (failed eagain) e ih = (
        _,
        _,
        send_loop_round fuel bs w (failed eagain) e,
        failed-Wrote w bs eagain e (λ b. absurd (eagain-blocks b)),
      )
      go (failed ewouldblock) e ih = (
        _,
        _,
        send_loop_round fuel bs w (failed ewouldblock) e,
        failed-Wrote w bs ewouldblock e (λ b. absurd (ewouldblock-blocks b)),
      )
      go (failed (other k)) e ih = (
        _,
        _,
        send_loop_round fuel bs w (failed (other k)) e,
        failed-Wrote w bs (other k) e (λ b. (w, k, e, refl)),
      )

  write-WriteEnds :
      (fuel : ℕ) (bs : Bytes) (w : World sys)
      → s.patience w < fuel
      → WriteEnds (Sys.write sys.os fuel fd bs w) w bs
  unfolding Sys.write
  write-WriteEnds fuel bs w h = rw s.valid (send_loop-WriteEnds fuel bs w h)

  -- What `async_write` gives for the bytes `rest` that are left.
  abbrev pub Put : World sys → Bytes → ℕ → WriteResult → World sys → Type 0
  Put w rest size (some n) w' = (n ≡ size) × (s.sent w' ≡ s.sent w ++ rest)
  Put w rest size none w' =
      (k : ℕ) × (k ≤ length rest) × (s.sent w' ≡ s.sent w ++ take k rest) × Refused (drop k rest) w'

  abbrev after_write : ℕ → Bytes → ℕ → Call ℕ → World sys → Ended (World sys) WriteResult
  after_write fuel buffer pos (returned (suc k)) w = async_write sys fuel fd buffer (pos + suc k) w
  after_write fuel buffer pos (returned zero) w =
      if would_block (sys.os.last_errno w)
      then then_do (sys.await_io_event w fd monitor_write)
          (λ _ w₂. async_write sys fuel fd buffer pos w₂)
      else ended none w
  after_write fuel buffer pos (failed e) w =
      if would_block e
      then then_do (sys.await_io_event w fd monitor_write)
          (λ _ w₂. async_write sys fuel fd buffer pos w₂)
      else ended none w

  async_write_round :
      (fuel : ℕ) (buffer : Bytes) (pos : ℕ) (w w₁ : World sys) (res : Call ℕ)
      → pos < length buffer
      → Sys.write sys.os (suc fuel) fd (drop pos buffer) w ≡ ended res w₁
      → async_write sys (suc fuel) fd buffer pos w ≡ after_write fuel buffer pos res w₁
  unfolding async_write
  async_write_round fuel buffer pos w w₁ (returned (suc k)) lt e =
      let inside : ltb pos (length buffer) ≡ true = ground arith in rw (inside, e) refl
  async_write_round fuel buffer pos w w₁ (returned zero) lt e =
      let inside : ltb pos (length buffer) ≡ true = ground arith in rw (inside, e) refl
  async_write_round fuel buffer pos w w₁ (failed x) lt e =
      let inside : ltb pos (length buffer) ≡ true = ground arith in rw (inside, e) refl

  async_write_end :
      (fuel : ℕ) (buffer : Bytes) (pos : ℕ) (w : World sys)
      → length buffer ≤ pos
      → async_write sys (suc fuel) fd buffer pos w ≡ ended (some (length buffer)) w
  unfolding async_write
  async_write_end fuel buffer pos w le =
      let past : ltb pos (length buffer) ≡ false = ground arith in rw past refl

  Put-later :
      (w w₁ w' : World sys) (rest : Bytes) (size : ℕ) (res : WriteResult)
      → s.sent w₁ ≡ s.sent w
      → Put w₁ rest size res w'
      → Put w rest size res w'
  Put-later w w₁ w' rest size (some n) e (n_is, all) = (n_is, all ∙ ap (λ t. t ++ rest) e)
  Put-later w w₁ w' rest size none e (k, le, some_of, refused) =
      (k, le, some_of ∙ ap (λ t. t ++ take k rest) e, refused)

  -- `n` bytes were written before.
  Put-behind :
      (w w₁ w' : World sys) (rest : Bytes) (n size : ℕ) (res : WriteResult)
      → n ≤ length rest
      → s.sent w₁ ≡ s.sent w ++ take n rest
      → Put w₁ (drop n rest) size res w'
      → Put w rest size res w'
  Put-behind w w₁ w' rest n size (some m) le e (m_is, all) = (
    m_is,
    all
        ∙ ap (λ t. t ++ drop n rest) e
        ∙ append_assoc (s.sent w) (take n rest) (drop n rest)
        ∙ ap (λ t. s.sent w ++ t) (take-append-drop n rest),
  )
  Put-behind w w₁ w' rest n size none le e (k, le', some_of, refused) = (
    n + k,
    omega (arith, length-drop n rest),
    some_of
        ∙ ap (λ t. t ++ take k (drop n rest)) e
        ∙ append_assoc (s.sent w) (take n rest) (take k (drop n rest))
        ∙ ap (λ t. s.sent w ++ t) (take-plus n k rest),
    subst (λ x. Refused x w') (drop-drop n k (n + k) rest refl) refused,
  )

  -- On a stream, with more fuel than the bytes that are left and the times that calls are interrupted
  -- or would block, `async_write` returns: either the size of the buffer, and all from `pos` on has
  -- gone out; or a failure, a front part of that has gone out, and the call of `send` for the rest has
  -- failed with an error that is no interruption and does not mean that it would block.
  pub async_write-Put :
      (fuel : ℕ) (buffer : Bytes) (pos : ℕ) (w : World sys)
      → s.patience w + (length buffer - pos) < fuel
      → (res : WriteResult) × (w' : World sys) × (async_write sys fuel fd buffer pos w
          ≡ ended res w')
        × Put w (drop pos buffer) (length buffer) res w'
  async_write-Put zero buffer pos w h = absurd (omega arith)
  async_write-Put (suc fuel) buffer pos w h = elim (dec_lt pos (length buffer)) [
    | no past ↦ (
      some (length buffer),
      w,
      async_write_end fuel buffer pos w (omega arith),
      (
        refl,
        sym (append-nil (s.sent w))
            ∙ ap (λ t. s.sent w ++ t) (sym (drop_all pos buffer (omega arith))),
      ),
    )
    | yes inside ↦
        let (res, w₁, called, r) = write-WriteEnds (suc fuel) (drop pos buffer) w (omega arith) in
        go res w₁ inside called r (λ pos' w₂ lt. async_write-Put fuel buffer pos' w₂ lt)
  ]
    where
      drop_all : (n : ℕ) (xs : Bytes) → length xs ≤ n → drop n xs ≡ []
      drop_all zero [] h = refl
      drop_all zero (x ∷ xs) h = absurd (omega arith)
      drop_all (suc n) [] h = refl
      drop_all (suc n) (x ∷ xs) h = drop_all n xs (omega arith)

      go :
          (res : Call ℕ) (w₁ : World sys)
          → pos < length buffer
          → Sys.write sys.os (suc fuel) fd (drop pos buffer) w ≡ ended res w₁
          → Wrote w (drop pos buffer) res w₁
          → ((pos' : ℕ) (w₂ : World sys)
              → s.patience w₂ + (length buffer - pos') < fuel
              → (res : WriteResult) × (w' : World sys) × (async_write sys fuel fd buffer pos' w₂
                  ≡ ended res w')
                × Put w₂ (drop pos' buffer) (length buffer) res w')
          → (res : WriteResult) × (w' : World sys) × (async_write sys (suc fuel) fd buffer pos w
              ≡ ended res w')
            × Put w (drop pos buffer) (length buffer) res w'
      go (returned zero) w₁ inside called (le, all, none_left, less) ih =
          absurd (omega (arith, ap length (none_left refl), length-drop pos buffer))
      go (returned (suc k)) w₁ inside called (le, all, none_left, less) ih =
          let (res, w', done, p) = ih (pos + suc k) w₁ (omega (arith, length-drop pos buffer)) in
          (
            res,
            w',
            async_write_round fuel buffer pos w w₁ (returned (suc k)) inside called ∙ done,
            Put-behind w w₁ w' (drop pos buffer) (suc k) (length buffer) res le all (
                subst (λ x. Put w₁ x (length buffer) res w')
                  (sym (drop-drop pos (suc k) (pos + suc k) buffer refl)) p),
          )
      go (failed x) w₁ inside called r ih = elim (Bool-cases (would_block x)) [
        | inl again ↦
            let (w₂, resumed, same, le) = s.awaited_write w₁ in
            let (res, w', done, p) = ih pos w₂ (omega (arith, r.1 again)) in
            (
              res,
              w',
              async_write_round fuel buffer pos w w₁ (failed x) inside called
                  ∙ rw (again, resumed) done,
              Put-later w w₂ w' (drop pos buffer) (length buffer) res (same ∙ r.0) p,
            )
        | inr over ↦ (
          none,
          w₁,
          async_write_round fuel buffer pos w w₁ (failed x) inside called ∙ rw over refl,
          (0, omega arith, r.0 ∙ sym (append-nil (s.sent w)), r.2 over),
        )
      ]
