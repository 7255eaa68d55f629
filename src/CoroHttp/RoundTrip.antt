-- ===== src/CoroHttp/RoundTrip.antt =====
-- The reader of library/coro_http reads back the chunked body that the writer has sent.
use ccnet_utilities.Common.{none, some, take-append, codes, arith, length-append, take}
use ccnet_utilities.CoroHttp.Reader.{read_sized_body}
use ccnet_utilities.CoroHttp.Reader.Body.{read_sized_body-take}
use ccnet_utilities.CoroHttp.Writer.Head.{sized_response_lem, or_else}
use ccnet_utilities.CoroHttp.Writer.Sized.{message, write_nonchunked_all}
use ccnet_utilities.CoroHttp.Writer.{write_nonchunked, sized_response}
use ccnet_utilities.Cpp.Numbers.{to_string}
use ccnet_utilities.Cpp.Numbers.RoundTrip.{stoull-to_string}
use ccnet_utilities.Http.Headers
use ccnet_utilities.Http.Request.{Request}
use ccnet_utilities.Common.{
  ℕ, ◌+◌, ◌^◌, ◌≤◌, ◌<◌, ◌≡◌, sym, ap, ◌∙◌, subst, List, [], ◌∷◌, ◌++◌, length, Bytes,
}
use ccnet_utilities.CoroHttp.Reader.Chunked.{Chunked, Decoded, decode_chunked_body-Chunked}
use ccnet_utilities.CoroHttp.Reader.{max_temp_read_buffer, max_size, decode_chunked_body}
use ccnet_utilities.CoroHttp.Socket.{Socket, Reads, Delivers, Writes, Accepts}
use ccnet_utilities.CoroHttp.Task.{Outcome, returned}
use ccnet_utilities.CoroHttp.Writer.Chunks.{write_chunked-Sends}
use ccnet_utilities.CoroHttp.Writer.{write_chunked, chunked_response}
use ccnet_utilities.Http.Response.{Response, format_header}
use ccnet_utilities.Http.ServerConfig.{ServerConfig}

append_cancel : (xs ys zs : Bytes) → xs ++ ys ≡ xs ++ zs → ys ≡ zs
append_cancel [] ys zs e = e
append_cancel (x ∷ xs) ys zs e = append_cancel xs ys zs (cc)

returned-state {ℓ} :
    {S : Type ℓ} {a b : Unit {0}} {s t : S}
    → ◌≡◌ {A = Outcome S (Unit {0})} (returned a s) (returned b t)
    → s ≡ t
returned-state e = cc

-- A writer on the socket `out` and a reader on `in_`, each with its own configuration.
module _ {out in_ : Socket} (cfg cfg' : ServerConfig) (w : Writes out) (a : Accepts out)
    (r : Reads in_) (d : Delivers r) where
  -- Where `out` takes what is written, and `write_chunked` has put the head of a response and then the
  -- text `s` on it: if `s` and then `rest` are what a reader has in hand (`prefix`) and what its stream
  -- still delivers, in whatever pieces, the reader returns the body of the response, and the bytes it
  -- has not taken are an end of `rest`. The blocks are not empty, the reader's are of at most 4096
  -- bytes, the body is within the reader's bound, and the fuel is above the lengths of the stream and
  -- of the body.
  pub decode_chunked_body-write_chunked :
      (fuel fuel' : ℕ) (iterate : List (Bytes × Bytes) → List (Bytes × Bytes)) (resp : Response)
      (st st' : out.State) (st_in : in_.State) (prefix rest s : Bytes)
      → 0 < cfg.read_block
      → cfg.read_block < 2 ^ 64
      → 0 < cfg'.read_block
      → cfg'.read_block ≤ max_temp_read_buffer
      → cfg'.max_body_bytes + 2 ≤ max_size
      → length resp.body < fuel
      → write_chunked out cfg fuel iterate resp st ≡ returned tt st'
      → w.sent st' ≡ w.sent st ++ (format_header iterate (chunked_response resp) ++ s)
      → prefix ++ r.pending st_in ≡ s ++ rest
      → length (r.pending st_in) < fuel'
      → length resp.body < fuel'
      → length resp.body ≤ cfg'.max_body_bytes
      → Decoded r (decode_chunked_body in_ cfg' fuel' prefix st_in) resp.body rest
  decode_chunked_body-write_chunked fuel fuel' iterate resp st st' st_in prefix rest s block size_t
        block' small fits enough wrote sent comes reads rounds body =
      let head : Bytes = format_header iterate (chunked_response resp) in
      let (st'', s'', done, all, chunked) =
        write_chunked-Sends cfg w a block size_t fuel iterate resp st enough in
      let same : st'' ≡ st' = returned-state (sym done ∙ wrote) in
      let tails : s'' ≡ s =
        append_cancel head s'' s
          (append_cancel (w.sent st) (head ++ s'') (head ++ s) (sym all ∙ ap w.sent same ∙ sent)) in
      decode_chunked_body-Chunked cfg' r d block' small fits fuel' prefix rest st_in
        (subst (λ x. Chunked x resp.body) tails chunked) reads rounds comes body

  -- On a connection that takes what is written, `write_nonchunked` sends the head and the body of a
  -- response that names no length. Where a reader takes the `content-length` that this head gives, and
  -- its stream, that does not fail, delivers the body behind what it has in hand of it (`after`), and
  -- any further bytes (`rest`), it returns just that body, in whatever pieces it comes. The reader's
  -- blocks are of 1 to 4096 bytes, the body is below 2 ^ 64 bytes and within the reader's bound, and
  -- the fuel is above its length.
  pub read_sized_body-write_nonchunked :
      (fuel : ℕ) (iterate : List (Bytes × Bytes) → List (Bytes × Bytes)) (resp : Response)
      (req : Request) (after accum rest : Bytes) (st : out.State) (st_in : in_.State)
      → Headers.get resp.headers (codes "content-length") ≡ none
      → 0 < cfg'.read_block
      → cfg'.read_block ≤ max_temp_read_buffer
      → length resp.body ≤ cfg'.max_body_bytes
      → length resp.body < 2 ^ 64
      → length resp.body < fuel
      → after ++ r.pending st_in ≡ resp.body ++ rest
      → (content_length : Bytes) × (st' : out.State) × (st_in' : in_.State) × (Headers.get
            (sized_response resp).headers
            (codes "content-length")
          ≡ some content_length)
        × (write_nonchunked out cfg iterate resp st ≡ returned tt st')
        × (w.sent st' ≡ w.sent st ++ (format_header iterate (sized_response resp) ++ resp.body))
        × (read_sized_body in_ cfg' fuel content_length req after accum st_in
            ≡ returned (some (record req { body = resp.body })) (accum, st_in'))
  unfolding sized_response
  read_sized_body-write_nonchunked fuel iterate resp req after accum rest st st_in unnamed block
        small fits number enough comes =
      let size : Bytes = to_string (length resp.body) in
      let (done, sent) = write_nonchunked_all cfg w iterate resp st a in
      let (st_in', read) =
        read_sized_body-take cfg' r block small fuel (length resp.body) size req after accum st_in d
          (stoull-to_string (length resp.body) number) fits enough
          (omega (arith, ap length comes, length-append resp.body rest)) in
      (
        size,
        (out.async_write st (message iterate resp)).1,
        st_in',
        (sized_response_lem resp).0 ∙ ap (λ o. or_else o size) unnamed,
        done,
        sent,
        read
            ∙ ap (λ s. returned (some (record req { body = s })) (accum, st_in'))
                (ap (λ s. take (length resp.body) s) comes ∙ take-append resp.body rest),
      )
