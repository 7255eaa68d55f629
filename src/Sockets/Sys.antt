-- ===== src/Sockets/Sys.antt =====
-- library/sys_socket/sys_socket.h and sys_socket.cpp: `Socket`, `ClientSocket` and `ServerSocket`.
-- Fuel bounds how often a call that a signal interrupts is made again.
use ccnet_utilities.Common.{
  ℕ, zero, suc, Bool, true, false, Option, none, some, List, [], ◌∷◌, ◌==◌, if◌then◌else◌, Bytes,
  text,
}
use ccnet_utilities.Common.{ℤ, negsuc}
use ccnet_utilities.Sockets.Address.{ServerAddress, FullAddress}
use ccnet_utilities.Sockets.Errors.{SocketException, socket_exception, plain}

pub data Errno : Type 0 where
  eintr eagain ewouldblock : Errno
  other : ℕ → Errno

unfoldable pub code_of : Errno → ℕ
code_of eintr = 4
code_of eagain = 11
code_of ewouldblock = 11
code_of (other n) = n

-- `errno == EAGAIN || errno == EWOULDBLOCK`.
unfoldable pub would_block : Errno → Bool
would_block eagain = true
would_block ewouldblock = true
would_block _ = false

-- The result of a system call, or the error that it leaves in `errno`.
pub data Call (A : Type 0) : Type 0 where
  returned : A → Call A
  failed : Errno → Call A

pub data Sync : Type 0 where
  sync async : Sync

-- A descriptor, -1 where there is none.
abbrev pub invalid_fd : ℤ
invalid_fd = negsuc 0

unfoldable pub is_valid_socket_raw : ℤ → Bool
is_valid_socket_raw (negsuc zero) = false
is_valid_socket_raw _ = true

-- The calls of the operating system. `accept4` gives a descriptor and an address, `last_errno` is
-- what `errno` holds.
pub record Os : Type 1 where
  pub World : Type 0
  pub recv : World → ℤ → ℕ → Call Bytes × World
  pub send : World → ℤ → Bytes → Call ℕ × World
  pub close_fd : World → ℤ → World
  pub accept4 : World → ℤ → Sync → Call (ℤ × FullAddress) × World
  pub open_socket : World → Sync → Call ℤ × World
  pub set_reuse : World → ℤ → Call (Unit {0}) × World
  pub bind_port : World → ℤ → ℕ → Call (Unit {0}) × World
  pub listen_on : World → ℤ → Call (Unit {0}) × World
  pub last_errno : World → Errno

-- The addresses that `new` gave and `delete` has not taken back; the next one is above all of them.
pub record Heap : Type 0 where
  pub live : List (ℕ × FullAddress)
  pub next : ℕ

-- The member `socket_fd` of a `Socket`.
pub record Socket : Type 0 where
  pub socket_fd : ℤ

pub record ClientSocket : Type 0 where
  pub socket_fd : ℤ
  pub is_sync : Sync
  pub client_handle : ℕ

pub record ServerSocket : Type 0 where
  pub socket_fd : ℤ
  pub is_sync : Sync
  pub server_addr : ServerAddress

-- A method ends, throws, frees what is not live, or the fuel of the model runs out.
pub data Ended (W A : Type 0) : Type 0 where
  ended : A → W → Ended W A
  thrown : SocketException → W → Ended W A
  double_free : Ended W A
  starved : Ended W A

-- `Socket(Socket&& other)`: the new socket, and what is left in the other.
unfoldable pub move_socket : Socket → Socket × Socket
move_socket source = (source, record { socket_fd = invalid_fd })

-- `operator=(Socket&&)`, which forgets the descriptor of its left side.
unfoldable pub assign_socket : Socket → Socket → Socket × Socket
assign_socket target source = (source, record { socket_fd = invalid_fd })

-- The defaulted `ClientSocket(ClientSocket&&)`: the other keeps its `client_handle`.
unfoldable pub move_client : ClientSocket → ClientSocket × ClientSocket
move_client source = (source, record source { socket_fd = invalid_fd })

unfoldable pub assign_client : ClientSocket → ClientSocket → ClientSocket × ClientSocket
assign_client target source = (source, record source { socket_fd = invalid_fd })

-- `isSync` of the new socket is not set.
unfoldable pub move_server : Sync → ServerSocket → ServerSocket × ServerSocket
move_server uninitialised source =
    (record source { is_sync = uninitialised }, record source { socket_fd = invalid_fd })

unfoldable pub assign_server : ServerSocket → ServerSocket → ServerSocket × ServerSocket
assign_server target source = (record target { server_addr = source.server_addr }, source)

-- `new sockaddr_in(...)`.
unfoldable pub allocate : FullAddress → Heap → ℕ × Heap
allocate a heap = (heap.next, record { live = (heap.next, a) ∷ heap.live; next = suc heap.next })

unfoldable pub find_live : ℕ → List (ℕ × FullAddress) → Option FullAddress
find_live p [] = none
find_live p ((q, a) ∷ rest) = if q == p then some a else find_live p rest

unfoldable pub free_live : ℕ → List (ℕ × FullAddress) → List (ℕ × FullAddress)
free_live p [] = []
free_live p ((q, a) ∷ rest) = if q == p then rest else (q, a) ∷ free_live p rest

-- `delete p`, where the null pointer is 0; `none` is a pointer that is not live.
unfoldable pub deallocate : ℕ → Heap → Option Heap
deallocate p heap = if p == 0 then some heap else (elim (find_live p heap.live) [
  | none ↦ none
  | some a ↦ some (record heap { live = free_live p heap.live })
])

-- `ClientSocket(fd)`, with whatever `isSync` holds.
unfoldable pub client_of : Sync → ℤ → ClientSocket
client_of uninitialised fd = record { socket_fd = fd; is_sync = uninitialised; client_handle = 0 }

unfoldable pub set_internal_data : FullAddress → ClientSocket → Heap → ClientSocket × Heap
set_internal_data datas s heap =
    let (p, heap') = allocate datas heap in (record s { client_handle = p }, heap')

-- `ServerSocket(addr)`.
unfoldable pub server_of : Sync → ServerAddress → ServerSocket
server_of uninitialised addr = record {
  socket_fd = invalid_fd;
  is_sync = uninitialised;
  server_addr = addr;
}

abbrev pub invalid_handle : SocketException
invalid_handle = plain socket_exception (text "Invalid Socket Handle")

module _ (os : Os) where
  -- `Socket::close`.
  unfoldable pub close : Socket → os.World → Socket × os.World
  close s w =
      if is_valid_socket_raw s.socket_fd
      then (record { socket_fd = invalid_fd }, os.close_fd w s.socket_fd)
      else (s, w)

  -- `ClientSocket::close`, which the destructor calls too; the heap is part of the state.
  unfoldable pub close_client :
      ClientSocket → Heap × os.World → Ended (Heap × os.World) ClientSocket
  close_client s (heap, w) = elim (deallocate s.client_handle heap) [
    | none ↦ double_free
    | some heap' ↦
        let (base, w') = close (record { socket_fd = s.socket_fd }) w in
        ended (record s { socket_fd = base.socket_fd }) (heap', w')
  ]

  -- The loop of `read` over `recv`.
  unfoldable pub recv_loop : ℕ → ℤ → ℕ → os.World → Ended os.World (Call Bytes)
  recv_loop zero fd size w = starved
  recv_loop (suc fuel) fd size w =
      let again : Ended os.World (Call Bytes) = recv_loop fuel fd size (os.recv w fd size).1 in
      elim (os.recv w fd size).0 [
        | returned bs ↦ ended (returned bs) (os.recv w fd size).1
        | failed eintr ↦ again
        | failed eagain ↦ ended (failed eagain) (os.recv w fd size).1
        | failed ewouldblock ↦ ended (failed ewouldblock) (os.recv w fd size).1
        | failed (other n) ↦ ended (failed (other n)) (os.recv w fd size).1
      ]

  unfoldable pub read : ℕ → ℤ → ℕ → os.World → Ended os.World (Call Bytes)
  read fuel fd size w =
      if is_valid_socket_raw fd then recv_loop fuel fd size w else thrown invalid_handle w

  -- The loop of `write` over `send`.
  unfoldable pub send_loop : ℕ → ℤ → Bytes → os.World → Ended os.World (Call ℕ)
  send_loop zero fd buffer w = starved
  send_loop (suc fuel) fd buffer w =
      let again : Ended os.World (Call ℕ) = send_loop fuel fd buffer (os.send w fd buffer).1 in
      elim (os.send w fd buffer).0 [
        | returned n ↦ ended (returned n) (os.send w fd buffer).1
        | failed eintr ↦ again
        | failed eagain ↦ ended (failed eagain) (os.send w fd buffer).1
        | failed ewouldblock ↦ ended (failed ewouldblock) (os.send w fd buffer).1
        | failed (other n) ↦ ended (failed (other n)) (os.send w fd buffer).1
      ]

  unfoldable pub write : ℕ → ℤ → Bytes → os.World → Ended os.World (Call ℕ)
  write fuel fd buffer w =
      if is_valid_socket_raw fd then send_loop fuel fd buffer w else thrown invalid_handle w
