-- ===== src/CoroHttp/Writer/Sized.antt =====
-- What `write_nonchunked` sends.
use ccnet_utilities.Common.{◌⊎◌, inl, inr}
use ccnet_utilities.Common.{
  ℕ, zero, suc, ◌+◌, ◌-◌, ◌≤◌, ◌<◌, ◌≡◌, refl, sym, ap, ◌∙◌, true, false, none, some, List, [], ◌∷◌,
  ◌++◌, arith, ltb, length, take, drop, length-append, Bytes,
}
use ccnet_utilities.CoroHttp.Socket.{Socket, Writes, Accepts, WriteResult}
use ccnet_utilities.CoroHttp.Task.{returned}
use ccnet_utilities.CoroHttp.Writer.{write_all, write_nonchunked, sized_response, Done}
use ccnet_utilities.Http.ServerConfig.{ServerConfig}
use ccnet_utilities.CoroHttp.Writer.Chunks.{head_size}
use ccnet_utilities.Http.Response.{Response, format_header}

-- The octets of the message that `write_nonchunked` sends.
abbrev pub message : (List (Bytes × Bytes) → List (Bytes × Bytes)) → Response → Bytes
message iterate resp = format_header iterate (sized_response resp) ++ (sized_response resp).body

module _ {sock : Socket} (cfg : ServerConfig) (w : Writes sock) where
  write_all_end :
      (fuel : ℕ) (out : Bytes) (pos : ℕ) (st : sock.State)
      → length out ≤ pos
      → write_all sock cfg (suc fuel) out pos st ≡ returned tt st
  unfolding write_all
  write_all_end fuel out pos st h =
      let past : ltb pos (length out) ≡ false = ground arith in rw past

  write_all_failed :
      (fuel : ℕ) (out : Bytes) (pos : ℕ) (st : sock.State)
      → pos < length out
      → (sock.async_write st (drop pos out)).0 ≡ none
      → write_all sock cfg (suc fuel) out pos st
        ≡ returned tt (sock.async_write st (drop pos out)).1
  unfolding write_all
  write_all_failed fuel out pos st h e =
      let inside : ltb pos (length out) ≡ true = ground arith in rw (inside, e)

  write_all_next :
      (fuel n : ℕ) (out : Bytes) (pos : ℕ) (st : sock.State)
      → pos < length out
      → (sock.async_write st (drop pos out)).0 ≡ some (suc n)
      → write_all sock cfg (suc fuel) out pos st
        ≡ write_all sock cfg fuel out (pos + suc n) (sock.async_write st (drop pos out)).1
  unfolding write_all
  write_all_next fuel n out pos st h e =
      let inside : ltb pos (length out) ≡ true = ground arith in rw (inside, e)

  -- The loop returns, and has sent all of the text, or a front part of it where a write has failed.
  abbrev Sent : Done sock cfg → sock.State → Bytes → Type 0
  Sent o st out =
      (st' : sock.State) × (k : ℕ) × (k ≤ length out)
      × (o ≡ returned tt st')
      × (w.sent st' ≡ w.sent st ++ take k out)
      × ((k ≡ length out) ⊎ ((sock.async_write st out).0 ≡ none))

  take_all : (s : Bytes) → take (length s) s ≡ s
  take_all [] = refl
  take_all (c ∷ s) = ap (λ t. c ∷ t) (take_all s)

  write_all-Sent :
      (fuel : ℕ) (out : Bytes) (st : sock.State)
      → 0 < length out
      → Sent (write_all sock cfg (suc (suc fuel)) out 0 st) st out
  write_all-Sent fuel out st h = go (sock.async_write st out).0 refl
    where
      go :
          (res : WriteResult)
          → (sock.async_write st out).0 ≡ res
          → Sent (write_all sock cfg (suc (suc fuel)) out 0 st) st out
      go none e =
          let (k, le, sent) = w.wrote_some st out e in
          (
            (sock.async_write st out).1,
            k,
            le,
            write_all_failed (suc fuel) out 0 st h e,
            sent,
            inr e,
          )
      go (some zero) e = absurd (omega (arith, (w.wrote_all st out e).0))
      go (some (suc n)) e =
          let (size, sent) = w.wrote_all st out e in
          (
            (sock.async_write st out).1,
            length out,
            omega arith,
            write_all_next (suc fuel) n out 0 st h e
                ∙ write_all_end fuel out (0 + suc n) (sock.async_write st out).1 (omega arith),
            sent ∙ ap (λ t. w.sent st ++ t) (sym (take_all out)),
            inl refl,
          )

  message-pos :
      (iterate : List (Bytes × Bytes) → List (Bytes × Bytes)) (resp : Response)
      → 0 < length (message iterate resp)
  message-pos iterate resp =
      let (n, size) = head_size iterate (sized_response resp) in
      omega (
        arith,
        length-append (format_header iterate (sized_response resp)) (sized_response resp).body,
      )

  write_nonchunked-fuel :
      (iterate : List (Bytes × Bytes) → List (Bytes × Bytes)) (resp : Response) (st : sock.State)
      → (fuel : ℕ) × (write_nonchunked sock cfg iterate resp st
          ≡ write_all sock cfg (suc (suc fuel)) (message iterate resp) 0 st)
  unfolding write_nonchunked
  write_nonchunked-fuel iterate resp st =
      let n : ℕ = length (message iterate resp) in
      (
        n - 1,
        ap (λ k. write_all sock cfg k (message iterate resp) 0 st)
            (omega (arith, message-pos iterate resp)),
      )

  -- Whatever the connection does, `write_nonchunked` returns, and has sent the message, a head and the
  -- body: all of it, or, where `async_write` fails for the message, a front part.
  pub write_nonchunked-Sent :
      (iterate : List (Bytes × Bytes) → List (Bytes × Bytes)) (resp : Response) (st : sock.State)
      → Sent (write_nonchunked sock cfg iterate resp st) st (message iterate resp)
  write_nonchunked-Sent iterate resp st =
      let (fuel, same) = write_nonchunked-fuel iterate resp st in
      let (st', k, le, done, sent, whole) =
        write_all-Sent fuel (message iterate resp) st (message-pos iterate resp) in
      (st', k, le, same ∙ done, sent, whole)

  -- On a connection that takes what is written, it sends all of the message in one write.
  pub write_nonchunked_all :
      (iterate : List (Bytes × Bytes) → List (Bytes × Bytes)) (resp : Response) (st : sock.State)
      → Accepts sock
      → (write_nonchunked sock cfg iterate resp st
          ≡ returned tt (sock.async_write st (message iterate resp)).1)
        × (w.sent (sock.async_write st (message iterate resp)).1
            ≡ w.sent st ++ message iterate resp)
  write_nonchunked_all iterate resp st a =
      let out : Bytes = message iterate resp in
      let e : (sock.async_write st out).0 ≡ some (length out) = a.accepted st out in
      let (fuel, same) = write_nonchunked-fuel iterate resp st in
      let (n, size) = suc-of (length out) (message-pos iterate resp) in
      (
        same
            ∙ write_all_next (suc fuel) n out 0 st (message-pos iterate resp) (e ∙ ap some size)
            ∙ write_all_end fuel out (0 + suc n) (sock.async_write st out).1 (omega arith),
        (w.wrote_all st out e).1,
      )
    where
      suc-of : (n : ℕ) → 0 < n → (m : ℕ) × (n ≡ suc m)
      suc-of zero h = absurd (omega arith)
      suc-of (suc m) h = (m, refl)
