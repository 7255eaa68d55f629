-- ===== src/Sockets/Owner.antt =====
-- The address that a client socket owns through `client_handle`.
use ccnet_utilities.Common.{
  ℕ, ◌<◌, ◌≡◌, refl, ◌≢◌, false, none, some, List, [], ◌∷◌, arith, ◌==◌, subst, sym,
}
use ccnet_utilities.Sockets.Address.{FullAddress}
use ccnet_utilities.Sockets.Sys.{
  Heap, deallocate, find_live, free_live, Os, close_client, ClientSocket, ended, double_free, close,
}

-- The addresses of a heap are below `next`, each once.
abbrev pub IsSound : List (ℕ × FullAddress) → ℕ → Type 0
IsSound [] next = Unit {0}
IsSound ((p, a) ∷ rest) next = (p < next) × (find_live p rest ≡ none) × IsSound rest next

find_live-free_live :
    (p : ℕ) (live : List (ℕ × FullAddress)) (next : ℕ)
    → IsSound live next
    → find_live p (free_live p live) ≡ none
unfolding find_live free_live
find_live-free_live p [] next s = refl
find_live-free_live p ((q, a) ∷ rest) next s = ground (arith, find_live-free_live p rest next s.2)

deallocate_null : (heap : Heap) → deallocate 0 heap ≡ some heap
unfolding deallocate
deallocate_null heap = refl

deallocate_live :
    (p : ℕ) (heap : Heap) (a : FullAddress)
    → p ≢ 0
    → find_live p heap.live ≡ some a
    → deallocate p heap ≡ some (record heap { live = free_live p heap.live })
unfolding deallocate
deallocate_live p heap a ne e =
    let nonnull : (p == 0) ≡ false = ground arith in rw (nonnull, e) refl

deallocate_dead :
    (p : ℕ) (heap : Heap) → p ≢ 0 → find_live p heap.live ≡ none → deallocate p heap ≡ none
unfolding deallocate
deallocate_dead p heap ne e = let nonnull : (p == 0) ≡ false = ground arith in rw (nonnull, e) refl

module _ (os : Os) where
  close_client_freed :
      (s : ClientSocket) (heap heap' : Heap) (w : os.World)
      → deallocate s.client_handle heap ≡ some heap'
      → (s' : ClientSocket) × (w' : os.World) × (close_client os s (heap, w) ≡ ended s' (heap', w'))
        × (s'.client_handle ≡ s.client_handle)
  unfolding close_client
  close_client_freed s heap heap' w e =
      let closed = close os (record { socket_fd = s.socket_fd }) w in
      (record s { socket_fd = closed.0.socket_fd }, closed.1, rw (e, close_client) refl, refl)

  close_client_twice :
      (s : ClientSocket) (heap : Heap) (w : os.World)
      → deallocate s.client_handle heap ≡ none
      → close_client os s (heap, w) ≡ double_free
  unfolding close_client
  close_client_twice s heap w e = rw (e, close_client) refl

  -- A client socket with an address: the first `close` ends, and any later one by a socket with the
  -- same `client_handle` frees the address again. The closed socket itself has that handle still, as
  -- have both sockets behind a move, and the destructor calls `close`.
  pub close_client-close_client :
      (s t : ClientSocket) (heap : Heap) (a : FullAddress) (w w' : os.World)
      → IsSound heap.live heap.next
      → s.client_handle ≢ 0
      → find_live s.client_handle heap.live ≡ some a
      → t.client_handle ≡ s.client_handle
      → (s' : ClientSocket) × (heap' : Heap) × (w₁ : os.World) × (close_client os s (heap, w)
          ≡ ended s' (heap', w₁))
        × (s'.client_handle ≡ s.client_handle)
        × (close_client os s' (heap', w') ≡ double_free)
        × (close_client os t (heap', w') ≡ double_free)
  close_client-close_client s t heap a w w' sound ne e same =
      let p : ℕ = s.client_handle in
      let heap' : Heap = record heap { live = free_live p heap.live } in
      let (s', w₁, done, kept) =
        close_client_freed s heap heap' w (deallocate_live p heap a ne e) in
      let dead : deallocate p heap' ≡ none =
        deallocate_dead p heap' ne (find_live-free_live p heap.live heap.next sound) in
      (
        s',
        heap',
        w₁,
        done,
        kept,
        close_client_twice s' heap' w' (subst (λ q. deallocate q heap' ≡ none) (sym kept) dead),
        close_client_twice t heap' w' (subst (λ q. deallocate q heap' ≡ none) (sym same) dead),
      )
