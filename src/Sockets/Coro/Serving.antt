-- ===== src/Sockets/Coro/Serving.antt =====
-- The accept loop on a listening socket: each client is served, in the order of the queue, and for
-- each error the callback gets a null pointer.
use ccnet_utilities.Common.{Option, none}
use ccnet_utilities.Common.{
  ℕ, zero, suc, ◌≤◌, ◌<◌, ◌≡◌, refl, sym, ap, ◌∙◌, subst, true, false, some, List, [], ◌∷◌, arith,
  ◌==◌, length, take, drop,
}
use ccnet_utilities.Common.{ℤ}
use ccnet_utilities.Sockets.Address.{FullAddress}
use ccnet_utilities.Sockets.Coro.{Async, World, then_do, async_accept, accept_loop}
use ccnet_utilities.Sockets.Coro.Listener.{Listener}
use ccnet_utilities.Sockets.Sys.{Ended, ended, Sync, Heap, ClientSocket, ServerSocket, find_live}
use ccnet_utilities.Sockets.Coro.Accepting.{client_at, heap_with, outcome, async_accept-First}

-- Each client has the descriptor that its connection was given, and owns the address of its peer; for
-- each error there is a null pointer.
abbrev pub Served :
    List (Option ClientSocket) → List (Option (ℤ × FullAddress)) → List (ℕ × FullAddress) → Type 0
Served [] [] live = Unit {0}
Served (some c ∷ cs) (some a ∷ addrs) live =
    (c.socket_fd ≡ a.0) × (find_live c.client_handle live ≡ some a.1) × Served cs addrs live
Served (none ∷ cs) (none ∷ addrs) live = Served cs addrs live
Served _ _ live = ⊥

-- The addresses of a heap are those of another still.
abbrev pub Grown : Heap → Heap → Type 0
Grown heap heap' =
    (heap.next ≤ heap'.next)
    × ((p : ℕ) → p < heap.next → find_live p heap'.live ≡ find_live p heap.live)

find_live-heap_with :
    (p : ℕ) (c : ℤ × FullAddress) (heap : Heap)
    → p < heap.next
    → find_live p (heap_with c heap).live ≡ find_live p heap.live
unfolding find_live
find_live-heap_with p c heap h =
    let apart : (heap.next == p) ≡ false = ground arith in rw apart refl

find_live_new :
    (c : ℤ × FullAddress) (heap : Heap) → find_live heap.next (heap_with c heap).live ≡ some c.1
unfolding find_live
find_live_new c heap = let same : (heap.next == heap.next) ≡ true = ground arith in rw same refl

module _ {sys : Async} (s : ServerSocket) (l : Listener sys s.socket_fd) where
  -- What the accept loop does behind its first `async_accept`.
  abbrev after_client :
      ℕ
      → ℕ
      → Sync
      → Option ClientSocket
      → Heap × World sys
      → Ended (Heap × World sys) (List (Option ClientSocket))
  after_client fuel rounds unset client st =
      then_do (accept_loop sys fuel rounds unset s st) (λ clients st₂. ended (client ∷ clients) st₂)

  -- The argument of the callback, and the heap behind it.
  abbrev given : Sync → Option (ℤ × FullAddress) → Heap → Option ClientSocket × Heap
  given unset none heap = (none, heap)
  given unset (some c) heap = (some (client_at unset c heap), heap_with c heap)

  accept_loop_round :
      (fuel rounds : ℕ) (unset : Sync) (st : Heap × World sys) (c : Option (ℤ × FullAddress))
      (heap : Heap) (w₁ : World sys)
      → async_accept sys fuel unset s st ≡ outcome s l unset c heap w₁
      → accept_loop sys fuel (suc rounds) unset s st
        ≡ after_client fuel rounds unset (given unset c heap).0 ((given unset c heap).1, w₁)
  unfolding accept_loop
  accept_loop_round fuel rounds unset st none heap w₁ e = rw e refl
  accept_loop_round fuel rounds unset st (some c) heap w₁ e = rw e refl

  after_client_done :
      (fuel rounds : ℕ) (unset : Sync) (client : Option ClientSocket)
      (clients : List (Option ClientSocket)) (st st₂ : Heap × World sys)
      → accept_loop sys fuel rounds unset s st ≡ ended clients st₂
      → after_client fuel rounds unset client st ≡ ended (client ∷ clients) st₂
  after_client_done fuel rounds unset client clients st st₂ e = rw e refl

  -- What the first rounds give.
  abbrev pub Accepts : ℕ → ℕ → Sync → Heap → World sys → Type 0
  Accepts fuel rounds unset heap w =
      (clients : List (Option ClientSocket)) × (heap' : Heap) × (w' : World sys) × (accept_loop sys
          fuel rounds unset s (heap, w)
        ≡ ended clients (heap', w'))
      × Served clients (take rounds (l.queue w)) heap'.live
      × (l.queue w' ≡ drop rounds (l.queue w))
      × Grown heap heap'

  accept_loop_done :
      (fuel : ℕ) (unset : Sync) (heap : Heap) (w : World sys) → Accepts fuel 0 unset heap w
  unfolding accept_loop
  accept_loop_done fuel unset heap w = ([], heap, w, refl, tt, refl, (omega arith, λ p h. refl))

  given-Served :
      (unset : Sync) (c : Option (ℤ × FullAddress)) (heap heap' : Heap)
      (clients : List (Option ClientSocket)) (cs : List (Option (ℤ × FullAddress)))
      → Grown (given unset c heap).1 heap'
      → Served clients cs heap'.live
      → Served ((given unset c heap).0 ∷ clients) (c ∷ cs) heap'.live × Grown heap heap'
  given-Served unset none heap heap' clients cs grown served = (served, grown)
  given-Served unset (some c) heap heap' clients cs (grows, kept) served = (
    (refl, kept heap.next (omega arith) ∙ find_live_new c heap, served),
    (omega (arith, grows), λ p lt. kept p (omega (arith, lt)) ∙ find_live-heap_with p c heap lt),
  )

  -- While the calls of `accept4` are to give anything, the accept loop goes on in the order of that:
  -- with more fuel for each than calls would block, its first rounds end. The callback gets, for each
  -- client, a socket with the descriptor of its connection and an address of its own on the heap that
  -- is that of its peer; and a null pointer for each other error. The addresses that were on the heap
  -- stay.
  pub accept_loop-Served :
      (fuel rounds : ℕ) (unset : Sync) (heap : Heap) (w : World sys)
      → rounds ≤ length (l.queue w)
      → l.patience w < fuel
      → Accepts fuel rounds unset heap w
  accept_loop-Served fuel zero unset heap w h enough = accept_loop_done fuel unset heap w
  accept_loop-Served fuel (suc rounds) unset heap w h enough =
      by_queue (l.queue w) refl
        (λ heap₁ w₁ le lt. accept_loop-Served fuel rounds unset heap₁ w₁ le lt)
    where
      by_queue :
          (cs : List (Option (ℤ × FullAddress)))
          → l.queue w ≡ cs
          → ((heap₁ : Heap) (w₁ : World sys)
              → rounds ≤ length (l.queue w₁)
              → l.patience w₁ < fuel
              → Accepts fuel rounds unset heap₁ w₁)
          → Accepts fuel (suc rounds) unset heap w
      by_queue [] q ih =
          let empty : length (l.queue w) ≡ 0 = ap length q in absurd (omega (arith, h, empty))
      by_queue (c ∷ cs) q ih =
          let (w₁, first, rest, le) = async_accept-First s l fuel unset heap w c cs q enough in
          let long : length (l.queue w) ≡ suc (length (l.queue w₁)) =
            ap length q ∙ ap (λ x. suc (length x)) (sym rest) in
          let client : Option ClientSocket = (given unset c heap).0 in
          let heap₁ : Heap = (given unset c heap).1 in
          let (clients, heap', w', done, served, left, grown) =
            ih heap₁ w₁ (omega (arith, long, h)) (omega (arith, le, enough)) in
          let served' : Served clients (take rounds cs) heap'.live =
            subst (λ x. Served clients (take rounds x) heap'.live) rest served in
          let (all, grown') =
            given-Served unset c heap heap' clients (take rounds cs) grown served' in
          (
            client ∷ clients,
            heap',
            w',
            accept_loop_round fuel rounds unset (heap, w) c heap w₁ first
                ∙ after_client_done fuel rounds unset client clients (heap₁, w₁) (heap', w') done,
            subst (λ x. Served (client ∷ clients) (take (suc rounds) x) heap'.live) (sym q) all,
            left ∙ ap (λ x. drop rounds x) rest ∙ ap (λ x. drop (suc rounds) x) (sym q),
            grown',
          )
