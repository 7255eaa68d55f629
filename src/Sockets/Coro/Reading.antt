-- ===== src/Sockets/Coro/Reading.antt =====
-- `async_read` on a stream: it ends, with the next bytes of the stream.
use ccnet_utilities.Common.{
  ℕ, zero, suc, ◌≤◌, ◌<◌, ◌≡◌, refl, ◌∙◌, inl, inr, true, ◌++◌, arith, if◌then◌else◌, Bool-cases,
  length, Bytes, [], false, ap,
}
use ccnet_utilities.Common.{ℤ}
use ccnet_utilities.CoroHttp.Socket.{ReadResult, got}
use ccnet_utilities.CoroHttp.Socket
use ccnet_utilities.Platform.Events.{monitor_read}
use ccnet_utilities.Sockets.Coro.Stream.{Stream}
use ccnet_utilities.Sockets.Coro.{Async, World, async_read, then_do}
use ccnet_utilities.Sockets.Sys.{
  Errno, eintr, eagain, ewouldblock, other, Call, returned, failed, would_block, Ended, ended,
  recv_loop, is_valid_socket_raw,
}
use ccnet_utilities.Sockets.Sys

module _ {sys : Async} {fd : ℤ} (s : Stream sys fd) where
  -- A call of `recv` that failed.
  abbrev pub Broken : ℕ → Type 0
  Broken n = (w : World sys) × (k : ℕ) × ((sys.os.recv w fd n).0 ≡ failed (other k))

  -- What a call of `read` gives.
  abbrev pub Received : World sys → ℕ → Call Bytes → World sys → Type 0
  Received w n (returned bs) w' =
      (length bs ≤ n) × (s.pending w ≡ bs ++ s.pending w') × (bs ≡ [] → 0 < n → s.pending w ≡ [])
  Received w n (failed e) w' =
      (s.pending w ≡ s.pending w')
      × (would_block e ≡ true → s.patience w' < s.patience w)
      × (would_block e ≡ false → Broken n)

  abbrev pub ReadEnds : Ended (World sys) (Call Bytes) → World sys → ℕ → Type 0
  ReadEnds o w n = (res : Call Bytes) × (w' : World sys) × (o ≡ ended res w') × Received w n res w'

  Received-later :
      (w w₁ w' : World sys) (n : ℕ) (res : Call Bytes)
      → s.pending w ≡ s.pending w₁
      → s.patience w₁ < s.patience w
      → Received w₁ n res w'
      → Received w n res w'
  Received-later w w₁ w' n (returned bs) e lt (le, all, at_end) =
      (le, e ∙ all, λ z h. e ∙ at_end z h)
  Received-later w w₁ w' n (failed x) e lt (same, again, over) =
      (e ∙ same, λ b. omega (arith, again b), over)

  abbrev after_recv : ℕ → ℕ → Call Bytes → World sys → Ended (World sys) (Call Bytes)
  after_recv fuel n (returned bs) w = ended (returned bs) w
  after_recv fuel n (failed eintr) w = recv_loop sys.os fuel fd n w
  after_recv fuel n (failed eagain) w = ended (failed eagain) w
  after_recv fuel n (failed ewouldblock) w = ended (failed ewouldblock) w
  after_recv fuel n (failed (other k)) w = ended (failed (other k)) w

  recv_loop_round :
      (fuel n : ℕ) (w : World sys) (res : Call Bytes)
      → (sys.os.recv w fd n).0 ≡ res
      → recv_loop sys.os (suc fuel) fd n w ≡ after_recv fuel n res (sys.os.recv w fd n).1
  unfolding recv_loop
  recv_loop_round fuel n w (returned bs) e = rw (e, recv_loop) refl
  recv_loop_round fuel n w (failed eintr) e = rw (e, recv_loop) refl
  recv_loop_round fuel n w (failed eagain) e = rw (e, recv_loop) refl
  recv_loop_round fuel n w (failed ewouldblock) e = rw (e, recv_loop) refl
  recv_loop_round fuel n w (failed (other k)) e = rw (e, recv_loop) refl

  failed-Received :
      (w : World sys) (n : ℕ) (x : Errno)
      → (sys.os.recv w fd n).0 ≡ failed x
      → (would_block x ≡ false → Broken n)
      → Received w n (failed x) (sys.os.recv w fd n).1
  failed-Received w n x e broken = (s.not_received w n e, λ b. s.recv_again w n e (inr b), broken)

  empty-received :
      (w : World sys) (n : ℕ) (bs : Bytes)
      → (sys.os.recv w fd n).0 ≡ returned bs
      → bs ≡ []
      → 0 < n
      → s.pending w ≡ []
  empty-received w n bs e z h = s.end_of_stream w n (e ∙ ap returned z) h

  returned-Received :
      (w : World sys) (n : ℕ) (bs : Bytes)
      → (sys.os.recv w fd n).0 ≡ returned bs
      → Received w n (returned bs) (sys.os.recv w fd n).1
  returned-Received w n bs e =
      let (le, all) = s.received w n e in (le, all, empty-received w n bs e)

  not-blocking : would_block eagain ≡ false → ⊥
  unfolding would_block
  not-blocking e = cc

  not-blocking_either : would_block ewouldblock ≡ false → ⊥
  unfolding would_block
  not-blocking_either e = cc

  recv_loop-ReadEnds :
      (fuel n : ℕ) (w : World sys)
      → s.patience w < fuel
      → ReadEnds (recv_loop sys.os fuel fd n w) w n
  recv_loop-ReadEnds zero n w h = absurd (omega arith)
  recv_loop-ReadEnds (suc fuel) n w h =
      go (sys.os.recv w fd n).0 refl (λ lt. recv_loop-ReadEnds fuel n (sys.os.recv w fd n).1 lt)
    where
      go :
          (res : Call Bytes)
          → (sys.os.recv w fd n).0 ≡ res
          → (s.patience (sys.os.recv w fd n).1 < fuel
              → ReadEnds
                  (recv_loop sys.os fuel fd n (sys.os.recv w fd n).1)
                  (sys.os.recv w fd n).1
                  n)
          → ReadEnds (recv_loop sys.os (suc fuel) fd n w) w n
      go (returned bs) e ih =
          (_, _, recv_loop_round fuel n w (returned bs) e, returned-Received w n bs e)
      go (failed eintr) e ih =
          let less = s.recv_again w n e (inl refl) in
          let (res, w', done, r) = ih (omega (arith, less)) in
          (
            res,
            w',
            recv_loop_round fuel n w (failed eintr) e ∙ done,
            Received-later w (sys.os.recv w fd n).1 w' n res (s.not_received w n e) less r,
          )
      go (failed eagain) e ih = (
        _,
        _,
        recv_loop_round fuel n w (failed eagain) e,
        failed-Received w n eagain e (λ b. absurd (not-blocking b)),
      )
      go (failed ewouldblock) e ih = (
        _,
        _,
        recv_loop_round fuel n w (failed ewouldblock) e,
        failed-Received w n ewouldblock e (λ b. absurd (not-blocking_either b)),
      )
      go (failed (other k)) e ih = (
        _,
        _,
        recv_loop_round fuel n w (failed (other k)) e,
        failed-Received w n (other k) e (λ b. (w, k, e)),
      )

  read-ReadEnds :
      (fuel n : ℕ) (w : World sys)
      → s.patience w < fuel
      → ReadEnds (Sys.read sys.os fuel fd n w) w n
  unfolding Sys.read
  read-ReadEnds fuel n w h = rw s.valid (recv_loop-ReadEnds fuel n w h)

  -- What `async_read` gives.
  abbrev pub Got : World sys → ℕ → ReadResult → World sys → Type 0
  Got w n (got bs) w' =
      (length bs ≤ n) × (s.pending w ≡ bs ++ s.pending w') × (bs ≡ [] → 0 < n → s.pending w ≡ [])
  Got w n Socket.failed w' = (s.pending w ≡ s.pending w') × Broken n

  Got-later :
      (w w₁ w' : World sys) (n : ℕ) (res : ReadResult)
      → s.pending w ≡ s.pending w₁
      → Got w₁ n res w'
      → Got w n res w'
  Got-later w w₁ w' n (got bs) e (le, all, at_end) = (le, e ∙ all, λ z h. e ∙ at_end z h)
  Got-later w w₁ w' n Socket.failed e (same, broken) = (e ∙ same, broken)

  abbrev after_read : ℕ → ℕ → Call Bytes → World sys → Ended (World sys) ReadResult
  after_read fuel n (returned bs) w = ended (got bs) w
  after_read fuel n (failed e) w =
      if would_block e
      then then_do (sys.await_io_event w fd monitor_read) (λ _ w₂. async_read sys fuel fd n w₂)
      else ended Socket.failed w

  async_read_round :
      (fuel n : ℕ) (w w₁ : World sys) (res : Call Bytes)
      → Sys.read sys.os (suc fuel) fd n w ≡ ended res w₁
      → async_read sys (suc fuel) fd n w ≡ after_read fuel n res w₁
  unfolding async_read
  async_read_round fuel n w w₁ (returned bs) e = rw e refl
  async_read_round fuel n w w₁ (failed x) e = rw e refl

  -- On a stream, with more fuel than its calls are interrupted or would block, `async_read` returns:
  -- either bytes, at most as many as were asked for, that were the next of the stream, and none only
  -- at its end or where none were asked for; or a failure of `recv`, at which nothing is taken.
  pub async_read-Got :
      (fuel n : ℕ) (w : World sys)
      → s.patience w < fuel
      → (res : ReadResult) × (w' : World sys) × (async_read sys fuel fd n w ≡ ended res w')
        × Got w n res w'
  async_read-Got zero n w h = absurd (omega arith)
  async_read-Got (suc fuel) n w h =
      let (res, w₁, called, r) = read-ReadEnds (suc fuel) n w h in
      go res w₁ called r (λ w₂ lt. async_read-Got fuel n w₂ lt)
    where
      go :
          (res : Call Bytes) (w₁ : World sys)
          → Sys.read sys.os (suc fuel) fd n w ≡ ended res w₁
          → Received w n res w₁
          → ((w₂ : World sys)
              → s.patience w₂ < fuel
              → (res : ReadResult) × (w' : World sys) × (async_read sys fuel fd n w₂ ≡ ended res w')
                × Got w₂ n res w')
          → (res : ReadResult) × (w' : World sys) × (async_read sys (suc fuel) fd n w
              ≡ ended res w')
            × Got w n res w'
      go (returned bs) w₁ called r ih =
          (got bs, w₁, async_read_round fuel n w w₁ (returned bs) called, r)
      go (failed x) w₁ called (same_as, blocked, over_with) ih = elim (Bool-cases (would_block x)) [
        | inl again ↦
            let (w₂, resumed, same, le) = s.awaited_read w₁ in
            let (res, w', done, g) = ih w₂ (omega (arith, blocked again)) in
            (
              res,
              w',
              async_read_round fuel n w w₁ (failed x) called ∙ rw (again, resumed) done,
              Got-later w w₂ w' n res (same_as ∙ same) g,
            )
        | inr over ↦ (
          Socket.failed,
          w₁,
          async_read_round fuel n w w₁ (failed x) called ∙ rw over refl,
          (same_as, over_with over),
        )
      ]
