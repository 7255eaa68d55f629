-- ===== src/Sockets/Coro/Accepting.antt =====
-- `__async_accept` on a listening socket: it ends with the first client of the queue, or throws
-- where an error comes first.
use ccnet_utilities.Common.{false, inl, inr, Bool-cases, text}
use ccnet_utilities.Sockets.Errors.{accept_error, plain}
use ccnet_utilities.Common.{
  ℕ, zero, suc, ◌≤◌, ◌<◌, ◌≡◌, refl, sym, ap, ◌∙◌, true, Option, none, some, List, [], ◌∷◌, arith,
}
use ccnet_utilities.Common.{ℤ}
use ccnet_utilities.Platform.Events.{monitor_read}
use ccnet_utilities.Sockets.Address.{FullAddress}
use ccnet_utilities.Sockets.Coro.{Async, World, then_do, accept, async_accept, with_heap}
use ccnet_utilities.Sockets.Coro.Listener.{Listener}
use ccnet_utilities.Sockets.Sys.{
  thrown, Errno, Call, returned, failed, would_block, Ended, ended, Sync, async, Heap, ClientSocket,
  ServerSocket, allocate, client_of, set_internal_data,
}

-- The socket of a client, with an address of its own.
abbrev pub client_at : Sync → ℤ × FullAddress → Heap → ClientSocket
client_at unset c heap = record { socket_fd = c.0; is_sync = unset; client_handle = heap.next }

abbrev pub heap_with : ℤ × FullAddress → Heap → Heap
heap_with c heap = record { live = (heap.next, c.1) ∷ heap.live; next = suc heap.next }

head_eq : {A : Type 0} {x y : A} {xs ys : List A} → x ∷ xs ≡ y ∷ ys → x ≡ y
head_eq e = cc

tail_eq : {A : Type 0} {x y : A} {xs ys : List A} → x ∷ xs ≡ y ∷ ys → xs ≡ ys
tail_eq e = cc

not_nil : {A : Type 0} {x : A} {xs : List A} → x ∷ xs ≡ [] → ⊥
not_nil e = cc

module _ {sys : Async} (s : ServerSocket) (l : Listener sys s.socket_fd) where
  accept_returned :
      (unset : Sync) (heap : Heap) (w : World sys) (c : ℤ × FullAddress)
      → (sys.os.accept4 w s.socket_fd async).0 ≡ returned c
      → accept sys unset s (heap, w)
        ≡ ended
            (some (client_at unset c heap))
            (heap_with c heap, (sys.os.accept4 w s.socket_fd async).1)
  unfolding accept client_of set_internal_data allocate
  accept_returned unset heap w c e = rw (l.valid, e, accept) refl

  accept_blocked :
      (unset : Sync) (heap : Heap) (w : World sys) (n : Errno)
      → (sys.os.accept4 w s.socket_fd async).0 ≡ failed n
      → would_block n ≡ true
      → accept sys unset s (heap, w) ≡ ended none (heap, (sys.os.accept4 w s.socket_fd async).1)
  unfolding accept
  accept_blocked unset heap w n e b = rw (l.valid, e, b, accept) refl

  accept_refused :
      (unset : Sync) (heap : Heap) (w : World sys) (n : Errno)
      → (sys.os.accept4 w s.socket_fd async).0 ≡ failed n
      → would_block n ≡ false
      → accept sys unset s (heap, w)
        ≡ thrown
            (plain accept_error (text "Error in Accept!"))
            (heap, (sys.os.accept4 w s.socket_fd async).1)
  unfolding accept
  accept_refused unset heap w n e b = rw (l.valid, e, b, accept) refl

  async_accept_refused :
      (fuel : ℕ) (unset : Sync) (heap : Heap) (w : World sys) (n : Errno)
      → (sys.os.accept4 w s.socket_fd async).0 ≡ failed n
      → would_block n ≡ false
      → async_accept sys (suc fuel) unset s (heap, w)
        ≡ thrown
            (plain accept_error (text "Error in Accept!"))
            (heap, (sys.os.accept4 w s.socket_fd async).1)
  unfolding async_accept
  async_accept_refused fuel unset heap w n e b = rw (accept_refused unset heap w n e b) refl

  -- What a round does behind its `accept`.
  abbrev after_accept :
      ℕ → Sync → Option ClientSocket → Heap × World sys → Ended (Heap × World sys) ClientSocket
  after_accept fuel unset none st =
      then_do (with_heap sys st.0 (sys.await_io_event st.1 s.socket_fd monitor_read))
        (λ _ st₂. async_accept sys fuel unset s st₂)
  after_accept fuel unset (some c) st = ended c st

  async_accept_round :
      (fuel : ℕ) (unset : Sync) (st st₁ : Heap × World sys) (res : Option ClientSocket)
      → accept sys unset s st ≡ ended res st₁
      → async_accept sys (suc fuel) unset s st ≡ after_accept fuel unset res st₁
  unfolding async_accept
  async_accept_round fuel unset st st₁ none e = rw e refl
  async_accept_round fuel unset st st₁ (some c) e = rw e refl

  resumed_round :
      (fuel : ℕ) (unset : Sync) (heap : Heap) (w w₂ : World sys)
      → sys.await_io_event w s.socket_fd monitor_read ≡ ended tt w₂
      → after_accept fuel unset none (heap, w) ≡ async_accept sys fuel unset s (heap, w₂)
  resumed_round fuel unset heap w w₂ e = rw e refl

  -- What `async_accept` makes of an entry of the queue.
  abbrev pub outcome :
      Sync → Option (ℤ × FullAddress) → Heap → World sys → Ended (Heap × World sys) ClientSocket
  outcome unset none heap w = thrown (plain accept_error (text "Error in Accept!")) (heap, w)
  outcome unset (some c) heap w = ended (client_at unset c heap) (heap_with c heap, w)

  -- The first entry of the queue is taken.
  abbrev pub First :
      ℕ
      → Sync
      → Heap
      → World sys
      → Option (ℤ × FullAddress)
      → List (Option (ℤ × FullAddress))
      → Type 0
  First fuel unset heap w c cs =
      (w' : World sys) × (async_accept sys fuel unset s (heap, w) ≡ outcome unset c heap w')
      × (l.queue w' ≡ cs)
      × (l.patience w' ≤ l.patience w)

  pub async_accept-First :
      (fuel : ℕ) (unset : Sync) (heap : Heap) (w : World sys) (c : Option (ℤ × FullAddress))
      (cs : List (Option (ℤ × FullAddress)))
      → l.queue w ≡ c ∷ cs
      → l.patience w < fuel
      → First fuel unset heap w c cs
  async_accept-First zero unset heap w c cs q h = absurd (omega arith)
  async_accept-First (suc fuel) unset heap w c cs q h =
      by_call (sys.os.accept4 w s.socket_fd async).0 refl
        (λ w₂ q₂ lt. async_accept-First fuel unset heap w₂ c cs q₂ lt)
    where
      by_call :
          (res : Call (ℤ × FullAddress))
          → (sys.os.accept4 w s.socket_fd async).0 ≡ res
          → ((w₂ : World sys)
              → l.queue w₂ ≡ c ∷ cs
              → l.patience w₂ < fuel
              → First fuel unset heap w₂ c cs)
          → First (suc fuel) unset heap w c cs
      by_call (returned d) e ih =
          let (next, le) = l.accepted w e in
          let same : some d ≡ c = head_eq (sym next ∙ q) in
          (
            (sys.os.accept4 w s.socket_fd async).1,
            async_accept_round fuel unset (heap, w)
                  (heap_with d heap, (sys.os.accept4 w s.socket_fd async).1)
                  (some (client_at unset d heap)) (accept_returned unset heap w d e)
                ∙ ap (λ x. outcome unset x heap (sys.os.accept4 w s.socket_fd async).1) same,
            tail_eq (sym next ∙ q),
            le,
          )
      by_call (failed n) e ih = elim (Bool-cases (would_block n)) [
        | inr other ↦
            let (next, le) = l.refused w e other in
            let same : none ≡ c = head_eq (sym next ∙ q) in
            (
              (sys.os.accept4 w s.socket_fd async).1,
              async_accept_refused fuel unset heap w n e other
                  ∙ ap (λ x. outcome unset x heap (sys.os.accept4 w s.socket_fd async).1) same,
              tail_eq (sym next ∙ q),
              le,
            )
        | inl b ↦
            let (kept, lt) = l.blocked w e b (λ z. not_nil (sym q ∙ z)) in
            let (w₂, resumed, kept₂, le) =
              l.awaited (sys.os.accept4 w s.socket_fd async).1
                (λ z. not_nil (sym (kept ∙ q) ∙ z)) in
            let (w', done, rest, less) = ih w₂ (kept₂ ∙ kept ∙ q) (omega (arith, lt, le, h)) in
            (
              w',
              async_accept_round fuel unset (heap, w) (heap, (sys.os.accept4 w s.socket_fd async).1)
                    none (accept_blocked unset heap w n e b)
                  ∙ resumed_round fuel unset heap (sys.os.accept4 w s.socket_fd async).1 w₂ resumed
                  ∙ done,
              rest,
              omega (arith, less, le, lt),
            )
      ]
