-- ===== src/CoroHttp/Reader/Some.antt =====
-- What one `async_read` into the reader's array can do, on a socket that keeps the promise `Reads`.
use ccnet_utilities.Common.{
  ℕ, ◌≤◌, ◌≡◌, refl, ◌⊎◌, inl, inr, false, [], ◌∷◌, ◌++◌, arith, ltb, length, Bytes,
}
use ccnet_utilities.CoroHttp.Reader.{max_temp_read_buffer, read_some}
use ccnet_utilities.CoroHttp.Socket.{Socket, Reads, ReadResult, got, failed}
use ccnet_utilities.Http.ServerConfig.{ServerConfig}

module _ {sock : Socket} (cfg : ServerConfig) (r : Reads sock) where
  -- The read ends, or some bytes that were pending arrive.
  abbrev pub ReadCases {ℓ} :
      {R : Type ℓ} → sock.State → ℕ → R → (sock.State → R) → (Bytes → sock.State → R) → Type ℓ
  ReadCases st n overrun ended more =
      ((read_some sock cfg st n overrun ended more ≡ ended (sock.async_read st n).1)
        × (r.pending st ≡ r.pending (sock.async_read st n).1)
        × (((sock.async_read st n).0 ≡ got []) ⊎ ((sock.async_read st n).0 ≡ failed)))
      ⊎ ((b : ℕ) × (bs : Bytes) × (read_some sock cfg st n overrun ended more
            ≡ more (b ∷ bs) (sock.async_read st n).1)
          × (length (b ∷ bs) ≤ n)
          × (r.pending st ≡ (b ∷ bs) ++ r.pending (sock.async_read st n).1))

  pub read_some-cases {ℓ} :
      {R : Type ℓ} (st : sock.State) (n : ℕ) (overrun : R) (ended : sock.State → R)
      (more : Bytes → sock.State → R)
      → n ≤ max_temp_read_buffer
      → ReadCases st n overrun ended more
  unfolding read_some
  read_some-cases st n overrun ended more small = go (sock.async_read st n).0 refl
    where
      go : (res : ReadResult) → (sock.async_read st n).0 ≡ res → ReadCases st n overrun ended more
      go failed e = inl (rw (e, read_some), r.failed_pending st n e, inr e)
      go (got []) e = inl (rw (e, read_some), r.got_pending st n e, inl e)
      go (got (b ∷ bs)) e =
          let fits : length (b ∷ bs) ≤ n = r.got_within st n e in
          let inside : ltb max_temp_read_buffer (length (b ∷ bs)) ≡ false = ground arith in
          inr (b, bs, rw (e, read_some, inside), fits, r.got_pending st n e)
