-- ===== src/Tests/Listening.antt =====
-- A listening socket over a small operating system, and the accept loop on it.
use ccnet_utilities.Common.{Option, none, some, Bool, false, true}
use ccnet_utilities.Common.{
  ℕ, zero, suc, ◌≤◌, ◌<◌, ◌≡◌, refl, ap, subst, ◌≢◌, true, List, [], ◌∷◌, arith,
}
use ccnet_utilities.Common.{ℤ, pos}
use ccnet_utilities.Sockets.Address.{FullAddress}
use ccnet_utilities.Sockets.Sys.{
  other, Errno, eagain, Call, returned, failed, sync, async, Os, ServerSocket, ended, would_block,
}
use ccnet_utilities.Sockets.Coro.{Async}
use ccnet_utilities.Sockets.Coro.Listener.{Listener}
use ccnet_utilities.Sockets.Coro.Serving.{Accepts, accept_loop-Served}
use ccnet_utilities.Tests.Sockets.{three-valid, returned-injective, loopback, client_heap}

abbrev Answer : Type 0
Answer = Call (ℤ × FullAddress)

failed-injective : {a b : Errno} (x : Answer) → x ≡ failed a → x ≡ failed b → a ≡ b
failed-injective x e f = cc

-- A listening socket: what is to come, and how often calls would block.
abbrev Backlog : Type 0
Backlog = List (Option (ℤ × FullAddress)) × ℕ

abbrev accept_of : List (Option (ℤ × FullAddress)) → ℕ → Call (ℤ × FullAddress) × Backlog
accept_of cs (suc k) = (failed eagain, (cs, k))
accept_of [] zero = (failed eagain, ([], 0))
accept_of (none ∷ cs) zero = (failed (other 24), (cs, 0))
accept_of (some c ∷ cs) zero = (returned c, (cs, 0))

abbrev listening_os : Os
listening_os = record {
  World = Backlog;
  recv = λ w fd n. (failed eagain, w);
  send = λ w fd bs. (failed eagain, w);
  close_fd = λ w fd. w;
  accept4 = λ w fd s. accept_of w.0 w.1;
  open_socket = λ w s. (returned (pos 3), w);
  set_reuse = λ w fd. (returned tt, w);
  bind_port = λ w fd n. (returned tt, w);
  listen_on = λ w fd. (returned tt, w);
  last_errno = λ w. eagain;
}

abbrev listening : Async
listening = record { os = listening_os; await_io_event = λ w fd event. ended tt w }

accepted :
    (cs : List (Option (ℤ × FullAddress))) (k : ℕ) {c : ℤ × FullAddress}
    → (accept_of cs k).0 ≡ returned c
    → (cs ≡ some c ∷ (accept_of cs k).1.0) × ((accept_of cs k).1.1 ≤ k)
accepted cs (suc k) e = absurd cc
accepted [] zero e = absurd cc
accepted (none ∷ cs) zero e = absurd cc
accepted (some d ∷ cs) zero e = (ap (λ x. some x ∷ cs) (returned-injective e), omega arith)

would_block_of :
    {e : Errno} {b : Bool} (x : Errno) (y : Answer)
    → y ≡ failed x
    → y ≡ failed e
    → would_block e ≡ b
    → would_block x ≡ b
would_block_of {e} {b} x y f g h = subst (λ z. would_block z ≡ b) (failed-injective y g f) h

refused :
    (cs : List (Option (ℤ × FullAddress))) (k : ℕ) {e : Errno}
    → (accept_of cs k).0 ≡ failed e
    → would_block e ≡ false
    → (cs ≡ none ∷ (accept_of cs k).1.0) × ((accept_of cs k).1.1 ≤ k)
unfolding would_block
refused cs (suc k) e h =
    let no : true ≡ false = would_block_of eagain (failed eagain) refl e h in absurd cc
refused [] zero e h =
    let no : true ≡ false = would_block_of eagain (failed eagain) refl e h in absurd cc
refused (none ∷ cs) zero e h = (refl, omega arith)
refused (some d ∷ cs) zero e h = absurd cc

blocked :
    (cs : List (Option (ℤ × FullAddress))) (k : ℕ) {e : Errno}
    → (accept_of cs k).0 ≡ failed e
    → would_block e ≡ true
    → cs ≢ []
    → ((accept_of cs k).1.0 ≡ cs) × ((accept_of cs k).1.1 < k)
unfolding would_block
blocked cs (suc k) e h ne = (refl, omega arith)
blocked [] zero e h ne = absurd (ne refl)
blocked (none ∷ cs) zero e h ne =
    let no : false ≡ true = would_block_of (other 24) (failed (other 24)) refl e h in absurd cc
blocked (some d ∷ cs) zero e h ne = absurd cc

abbrev server : ServerSocket
server = record { socket_fd = pos 3; is_sync = async; server_addr = record { port = 80 } }

abbrev small_listener : Listener listening (pos 3)
small_listener = record {
  valid = three-valid;
  queue = λ w. w.0;
  patience = λ w. w.1;
  accepted = λ w e. accepted w.0 w.1 e;
  refused = λ w e h. refused w.0 w.1 e h;
  blocked = λ w e h ne. blocked w.0 w.1 e h ne;
  awaited = λ w ne. (w, refl, refl, omega arith);
}

-- Between two clients the process has too many open files.
abbrev two_clients : Backlog
two_clients =
    (some (pos 5, loopback) ∷ none ∷ some (pos 6, record { address = []; port = 81 }) ∷ [], 1)

accept_loop-Served_example : Accepts server small_listener 2 3 sync client_heap two_clients
accept_loop-Served_example =
    accept_loop-Served server small_listener 2 3 sync client_heap two_clients (omega arith)
      (omega arith)
