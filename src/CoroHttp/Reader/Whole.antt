-- ===== src/CoroHttp/Reader/Whole.antt =====
-- `read_request` where the whole request arrives.
use ccnet_utilities.Common.{
  ℕ, ◌+◌, ◌≤◌, ◌<◌, ◌≡◌, refl, sym, ap, ◌∙◌, Bool, true, false, none, some, ◌++◌, append_assoc,
  arith, ltb, within, length, take, drop, length-append, Bytes, codes, equal, equal_iff, find,
  substr,
}
use ccnet_utilities.Common.{find-some_le, take-append_le, drop-append_le, take-append, drop_at}
use ccnet_utilities.CoroHttp.Reader.{
  max_temp_read_buffer, read_until_double_crlf, read_body, decode_chunked_body, read_sized_body,
  read_request, max_size,
}
use ccnet_utilities.CoroHttp.Reader.Arrives.{read_until_double_crlf-Arrives}
use ccnet_utilities.CoroHttp.Reader.Chunked.{Chunked, decode_chunked_body-Chunked}
use ccnet_utilities.CoroHttp.Reader.Body.{read_sized_body-take}
use ccnet_utilities.CoroHttp.Socket.{Socket, Reads, Delivers}
use ccnet_utilities.CoroHttp.Task.{returned}
use ccnet_utilities.Cpp.Numbers.{stoull}
use ccnet_utilities.Http.Exceptions.{ok}
use ccnet_utilities.Http.Headers
use ccnet_utilities.Utils.Copy.{to_lower_copy}
use ccnet_utilities.Http.Request.Multipart.{all_seg_terminate}
use ccnet_utilities.Http.Request.Parse.{parse_request}
use ccnet_utilities.Http.Request.{Request}
use ccnet_utilities.Http.ServerConfig.{ServerConfig}

module _ {sock : Socket} (cfg : ServerConfig) (r : Reads sock) (d : Delivers r)
    (some_block : 0 < cfg.read_block) (small : cfg.read_block ≤ max_temp_read_buffer)
    (uninitialised : Bool) (after_move : Bytes → Bytes) where
  read_request_parsed :
      (fuel n : ℕ) (accum accum' : Bytes) (st st' : sock.State) (req : Request)
      → read_until_double_crlf sock cfg fuel accum st ≡ returned true (accum', st')
      → find accum' all_seg_terminate ≡ some n
      → parse_request after_move (substr accum' 0 n) ≡ ok req
      → length req.path ≤ cfg.max_start_line
      → read_request sock cfg uninitialised after_move fuel accum st
        ≡ read_body sock cfg fuel req (drop (n + 4) accum') accum' st'
  unfolding read_request
  read_request_parsed fuel n accum accum' st st' req done at parsed short =
      let fits : ltb cfg.max_start_line (length req.path) ≡ false = ground arith in
      rw (done, read_request) (rw at (rw parsed (rw fits refl)))

  -- What is to come begins with the header block `h`, and ends it by the first empty line.
  abbrev pub Announces : Bytes → sock.State → Bytes → Bytes → Type 0
  Announces accum st h rest =
      (accum ++ r.pending st ≡ h ++ (all_seg_terminate ++ rest))
      × (find (h ++ (all_seg_terminate ++ rest)) all_seg_terminate ≡ some (length h))

  cut_block :
      (h rest accum p : Bytes)
      → accum ++ p ≡ h ++ (all_seg_terminate ++ rest)
      → length h + 4 ≤ length accum
      → (substr accum 0 (length h) ≡ h) × (drop (length h + 4) accum ++ p ≡ rest)
  cut_block h rest accum p e long = (
    sym (take-append_le (length h) accum p (omega arith))
        ∙ ap (λ s. take (length h) s) e
        ∙ take-append h (all_seg_terminate ++ rest),
    sym (drop-append_le (length h + 4) accum p long)
        ∙ ap (λ s. drop (length h + 4) s) (e ∙ sym (append_assoc h all_seg_terminate rest))
        ∙ drop_at (length h + 4) (h ++ all_seg_terminate) rest
            (omega (arith, length-append h all_seg_terminate)),
  )

  -- The body strategy is applied to what follows the empty line.
  read_request_body :
      (fuel : ℕ) (accum h rest : Bytes) (st : sock.State) (req : Request)
      → Announces accum st h rest
      → length h + 3 ≤ cfg.max_header_bytes
      → length h + 4 < fuel
      → parse_request after_move h ≡ ok req
      → length req.path ≤ cfg.max_start_line
      → (after accum' : Bytes) × (st' : sock.State) × (read_request sock cfg uninitialised
            after_move fuel accum st
          ≡ read_body sock cfg fuel req after accum' st')
        × (after ++ r.pending st' ≡ rest)
  read_request_body fuel accum h rest st req (e, found) within enough parsed short =
      let (accum', st', done, whole, at) =
        read_until_double_crlf-Arrives cfg r d some_block small fuel (length h)
          (h ++ (all_seg_terminate ++ rest)) accum st found e within (omega arith) (omega arith) in
      let (front, behind) =
        cut_block h rest accum' (r.pending st') whole
          (find-some_le accum' all_seg_terminate (length h) at) in
      (
        drop (length h + 4) accum',
        accum',
        st',
        read_request_parsed fuel (length h) accum accum' st st' req done at
            (ap (λ s. parse_request after_move s) front ∙ parsed) short,
        behind,
      )

  read_body_sized :
      (fuel : ℕ) (req : Request) (after accum v : Bytes) (st : sock.State)
      → Headers.get req.headers (codes "content-length") ≡ some v
      → read_body sock cfg fuel req after accum st
        ≡ read_sized_body sock cfg fuel v req after accum st
  unfolding read_body
  read_body_sized fuel req after accum v st e = rw (e, read_body) refl

  -- Where the stream delivers a header block that the constructor accepts, with an empty line behind
  -- it and at least as many bytes behind that as its `content-length` says, all within the limits of
  -- the configuration, `read_request` gives the request with just that many of them for its body.
  pub read_request_sized :
      (fuel n : ℕ) (accum h rest v : Bytes) (st : sock.State) (req : Request)
      → Announces accum st h rest
      → length h + 3 ≤ cfg.max_header_bytes
      → length h + 4 + n < fuel
      → parse_request after_move h ≡ ok req
      → length req.path ≤ cfg.max_start_line
      → Headers.get req.headers (codes "content-length") ≡ some v
      → stoull v ≡ some n
      → n ≤ cfg.max_body_bytes
      → n ≤ length rest
      → (accum' : Bytes) × (st' : sock.State) × (read_request sock cfg uninitialised after_move fuel
            accum st
          ≡ returned (some (record req { body = take n rest })) (accum', st'))
  read_request_sized fuel n accum h rest v st req heard within enough parsed short cl num body
        long =
      let (after, accum', st', step, behind) =
        read_request_body fuel accum h rest st req heard within (omega arith) parsed short in
      let there : n ≤ length (after ++ r.pending st') = omega (arith, ap length behind, long) in
      let (st₂, done) =
        read_sized_body-take cfg r some_block small fuel n v req after accum' st' d num body
          (omega arith) there in
      (
        accum',
        st₂,
        step
            ∙ read_body_sized fuel req after accum' v st' cl
            ∙ done
            ∙ ap (λ s. returned (some (record req { body = take n s })) (accum', st₂)) behind,
      )

  read_body_chunked :
      (fuel : ℕ) (req : Request) (after accum encoding body : Bytes) (st st' : sock.State)
      → Headers.get req.headers (codes "content-length") ≡ none
      → Headers.get req.headers (codes "transfer-encoding") ≡ some encoding
      → to_lower_copy encoding ≡ codes "chunked"
      → decode_chunked_body sock cfg fuel after st ≡ returned body st'
      → read_body sock cfg fuel req after accum st
        ≡ returned (some (record req { body = body })) (accum, st')
  unfolding read_body
  read_body_chunked fuel req after accum encoding body st st' cl te lower done =
      let chunked : equal (to_lower_copy encoding) (codes "chunked") ≡ true =
        (equal_iff (to_lower_copy encoding) (codes "chunked")).1 lower in
      rw (cl, read_body) (rw te (rw chunked (rw done refl)))

  -- Where the stream delivers a header block that the constructor accepts, with no `content-length`
  -- but with the transfer encoding `chunked` in any case, an empty line behind it and then a chunked
  -- body that carries `b`, all within the limits of the configuration, `read_request` gives the
  -- request with the body `b`. What comes behind the body stays to be read, but for a front part
  -- that was read with it and is lost.
  pub read_request_chunked :
      (fuel : ℕ) (accum h s b more encoding : Bytes) (st : sock.State) (req : Request)
      → Announces accum st h (s ++ more)
      → length h + 3 ≤ cfg.max_header_bytes
      → length h + 4 + length (s ++ more) < fuel
      → parse_request after_move h ≡ ok req
      → length req.path ≤ cfg.max_start_line
      → Headers.get req.headers (codes "content-length") ≡ none
      → Headers.get req.headers (codes "transfer-encoding") ≡ some encoding
      → to_lower_copy encoding ≡ codes "chunked"
      → Chunked s b
      → length b ≤ cfg.max_body_bytes
      → length b < fuel
      → cfg.max_body_bytes + 2 ≤ max_size
      → (accum' : Bytes) × (st' : sock.State) × (lost : Bytes) × (read_request sock cfg
            uninitialised after_move fuel accum st
          ≡ returned (some (record req { body = b })) (accum', st'))
        × (more ≡ lost ++ r.pending st')
  read_request_chunked fuel accum h s b more encoding st req heard within enough parsed short cl te
        lower w fits room sizes =
      let (after, accum', st', step, behind) =
        read_request_body fuel accum h (s ++ more) st req heard within (omega arith) parsed short in
      let (st₂, lost, done, left) =
        decode_chunked_body-Chunked cfg r d some_block small sizes {s = s} {b = b} fuel after more
          st' w (omega (arith, ap length behind, length-append after (r.pending st'))) room behind
          fits in
      (
        accum',
        st₂,
        lost,
        step ∙ read_body_chunked fuel req after accum' encoding b st' st₂ cl te lower done,
        left,
      )
