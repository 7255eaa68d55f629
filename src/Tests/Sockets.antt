-- ===== src/Tests/Sockets.antt =====
-- A stream over a small operating system, and the theorems on it: each call would block as often as
-- the state says, then `recv` gives what is asked for, and `send` takes at most two bytes.
use ccnet_utilities.CoroHttp.RequestTrip.{Gets, header_block}
use ccnet_utilities.Http.Method
use ccnet_utilities.Http.Version
use ccnet_utilities.Http.Request.Multipart.{all_seg_terminate}
use ccnet_utilities.Sockets.Coro.Requests.{read_request-stream_socket}
use ccnet_utilities.Tests.Requests.{sized_echo, sized_within, sized_value, emptied}
use ccnet_utilities.Common.{
  ℕ, zero, suc, ◌≤◌, ◌<◌, ◌≡◌, refl, sym, ap, ◌∙◌, subst, ◌≢◌, true, [], ◌∷◌, ◌++◌, arith, length,
  take, drop, length-take, take-append-drop, Bytes, codes, false,
}
use ccnet_utilities.Common.{pos}
use ccnet_utilities.CoroHttp.Socket.{ReadResult, WriteResult}
use ccnet_utilities.Sockets.Address.{FullAddress}
use ccnet_utilities.Sockets.Sys.{
  Errno, eintr, eagain, other, Call, returned, failed, async, Os, Heap, ClientSocket, ended,
  double_free, close_client, is_valid_socket_raw, find_live,
}
use ccnet_utilities.Sockets.Owner.{close_client-close_client}
use ccnet_utilities.Sockets.Coro.{Async, async_read, async_write}
use ccnet_utilities.Sockets.Coro.Stream.{Stream}
use ccnet_utilities.Sockets.Coro.Reading.{Got, async_read-Got}
use ccnet_utilities.Sockets.Coro.Writing.{Put, async_write-Put}
use ccnet_utilities.Sockets.Coro.Interface.{stream_reads, stream_delivers}
use ccnet_utilities.Tests.Wire.{small_blocks}

-- What is to come, what has gone out, and how often calls would block.
abbrev World : Type 0
World = Bytes × Bytes × ℕ

abbrev recv_of : Bytes → Bytes → ℕ → ℕ → Call Bytes × World
recv_of p s zero n = (returned (take n p), (drop n p, s, 0))
recv_of p s (suc k) n = (failed eagain, (p, s, k))

abbrev send_of : Bytes → Bytes → ℕ → Bytes → Call ℕ × World
send_of p s zero bs = (returned (length (take 2 bs)), (p, s ++ take 2 bs, 0))
send_of p s (suc k) bs = (failed eintr, (p, s, k))

abbrev small_os : Os
small_os = record {
  World = World;
  recv = λ w fd n. recv_of w.0 w.1 w.2 n;
  send = λ w fd bs. send_of w.0 w.1 w.2 bs;
  close_fd = λ w fd. w;
  accept4 = λ w fd s. (failed eagain, w);
  open_socket = λ w s. (returned (pos 3), w);
  set_reuse = λ w fd. (returned tt, w);
  bind_port = λ w fd n. (returned tt, w);
  listen_on = λ w fd. (returned tt, w);
  last_errno = λ w. other 0;
}

abbrev small_async : Async
small_async = record { os = small_os; await_io_event = λ w fd event. ended tt w }

pub returned-injective : {A : Type 0} {a b : A} → returned a ≡ returned b → a ≡ b
returned-injective e = cc

received :
    (p s : Bytes) (k n : ℕ) {bs : Bytes}
    → (recv_of p s k n).0 ≡ returned bs
    → (length bs ≤ n) × (p ≡ bs ++ (recv_of p s k n).1.0)
received p s zero n e = (
  subst (λ x. length x ≤ n) (returned-injective e) (omega (arith, length-take n p)),
  sym (take-append-drop n p) ∙ ap (λ x. x ++ drop n p) (returned-injective e),
)
received p s (suc k) n e = absurd cc

end_of_stream : (p s : Bytes) (k n : ℕ) → (recv_of p s k n).0 ≡ returned [] → 0 < n → p ≡ []
end_of_stream p s (suc k) n e h = absurd cc
end_of_stream p s zero zero e h = absurd (omega arith)
end_of_stream [] s zero (suc n) e h = refl
end_of_stream (c ∷ p) s zero (suc n) e h = absurd cc

not_received :
    (p s : Bytes) (k n : ℕ) {e : Errno}
    → (recv_of p s k n).0 ≡ failed e
    → (p ≡ (recv_of p s k n).1.0) × ((recv_of p s k n).1.2 < k)
not_received p s zero n e = absurd cc
not_received p s (suc k) n e = (refl, omega arith)

take_taken : (n : ℕ) (bs : Bytes) → take (length (take n bs)) bs ≡ take n bs
take_taken zero bs = refl
take_taken (suc n) [] = refl
take_taken (suc n) (b ∷ bs) = ap (λ x. b ∷ x) (take_taken n bs)

wrote :
    (p s : Bytes) (k : ℕ) (bs : Bytes) {n : ℕ}
    → (send_of p s k bs).0 ≡ returned n
    → (n ≤ length bs) × ((send_of p s k bs).1.1 ≡ s ++ take n bs) × ((send_of p s k bs).1.2 ≤ k)
wrote p s zero bs {n} e =
    let same : length (take 2 bs) ≡ n = returned-injective e in
    (
      omega (arith, same, length-take 2 bs),
      ap (λ x. s ++ x) (sym (take_taken 2 bs) ∙ ap (λ x. take x bs) same),
      omega arith,
    )
wrote p s (suc k) bs e = absurd cc

wrote_some : (p s : Bytes) (k : ℕ) (bs : Bytes) → (send_of p s k bs).0 ≡ returned 0 → bs ≡ []
wrote_some p s (suc k) bs e = absurd cc
wrote_some p s zero [] e = refl
wrote_some p s zero (b ∷ bs) e =
    let same : length (take 2 (b ∷ bs)) ≡ 0 = returned-injective e in absurd (omega (arith, same))

not_wrote :
    (p s : Bytes) (k : ℕ) (bs : Bytes) {e : Errno}
    → (send_of p s k bs).0 ≡ failed e
    → ((send_of p s k bs).1.1 ≡ s) × ((send_of p s k bs).1.2 < k)
not_wrote p s zero bs e = absurd cc
not_wrote p s (suc k) bs e = (refl, omega arith)

pub three-valid : is_valid_socket_raw (pos 3) ≡ true
unfolding is_valid_socket_raw
three-valid = refl

abbrev small_stream : Stream small_async (pos 3)
small_stream = record {
  valid = three-valid;
  pending = λ w. w.0;
  sent = λ w. w.1;
  patience = λ w. w.2;
  received = λ w n e. received w.0 w.1 w.2 n e;
  end_of_stream = λ w n e h. end_of_stream w.0 w.1 w.2 n e h;
  not_received = λ w n e. (not_received w.0 w.1 w.2 n e).0;
  recv_again = λ w n e b. (not_received w.0 w.1 w.2 n e).1;
  wrote = λ w bs e. wrote w.0 w.1 w.2 bs e;
  wrote_some = λ w bs e. wrote_some w.0 w.1 w.2 bs e;
  not_wrote = λ w bs e. (not_wrote w.0 w.1 w.2 bs e).0;
  send_again = λ w bs e b. (not_wrote w.0 w.1 w.2 bs e).1;
  awaited_read = λ w. (w, refl, refl, omega arith);
  awaited_write = λ w. (w, refl, refl, omega arith);
}

abbrev before : World
before = (codes "hello, world", [], 2)

async_read-Got_example :
    (res : ReadResult) × (w' : World) × (async_read small_async 3 (pos 3) 5 before ≡ ended res w')
    × Got small_stream before 5 res w'
async_read-Got_example = async_read-Got small_stream 3 5 before (omega arith)

async_write-Put_example :
    (res : WriteResult) × (w' : World) × (async_write small_async 9 (pos 3) (codes "hello") 1 before
      ≡ ended res w')
    × Put small_stream before (drop 1 (codes "hello")) (length (codes "hello")) res w'
async_write-Put_example = async_write-Put small_stream 9 (codes "hello") 1 before (omega arith)

small-healthy : (w : World) (n k : ℕ) → (recv_of w.0 w.1 w.2 n).0 ≢ failed (other k)
small-healthy w n k = by_patience w.2
  where
    by_patience : (j : ℕ) → (recv_of w.0 w.1 j n).0 ≢ failed (other k)
    by_patience zero e = cc
    by_patience (suc j) e = cc

-- A small request, where two calls would block.
abbrev on_the_way : World
on_the_way = (header_block sized_echo ++ (all_seg_terminate ++ (codes "hi" ++ codes "GET")), [], 2)

read_request-stream_socket_example :
    Gets small_blocks
      (stream_reads small_stream)
      (stream_delivers small_stream (λ w n k. small-healthy w n k))
      (omega arith)
      (omega arith)
      false
      emptied
      sized_echo
      sized_within
      100
      []
      on_the_way
      (codes "hi")
unfolding Method.to_string Version.version_string
read_request-stream_socket_example =
    read_request-stream_socket small_stream small_blocks (λ w n k. small-healthy w n k)
      (omega arith) (omega arith) false emptied sized_echo sized_within 100 [] (codes "hi")
      (codes "GET") on_the_way refl sized_value (omega arith) (omega arith) (omega arith)

-- A client at address 1.
abbrev pub loopback : FullAddress
loopback = record { address = []; port = 80 }

abbrev client : ClientSocket
client = record { socket_fd = pos 5; is_sync = async; client_handle = 1 }

abbrev pub client_heap : Heap
client_heap = record { live = (1, loopback) ∷ []; next = 2 }

close_client-close_client_example :
    (s' : ClientSocket) × (heap' : Heap) × (w₁ : World) × (close_client small_os client
        (client_heap, before)
      ≡ ended s' (heap', w₁))
    × (s'.client_handle ≡ 1)
    × (close_client small_os s' (heap', before) ≡ double_free)
    × (close_client small_os client (heap', before) ≡ double_free)
unfolding find_live
close_client-close_client_example =
    close_client-close_client small_os client client client_heap loopback before before
      (omega arith, refl, tt) (omega arith) refl refl
