-- ===== src/Sockets/Server.antt =====
-- library/sys_socket/sys_socket.cpp: `ServerSocket::listen` and `accept`, and `dump_self`.
use ccnet_utilities.Common.{Option, none, some, ◌==◌, if◌then◌else◌, text}
use ccnet_utilities.Sockets.Address.{ServerAddress, FullAddress}
use ccnet_utilities.Sockets.Errors.{
  SocketException, socket_exception, create_error, bind_error, listen_error, accept_error, plain,
  with_code,
}
use ccnet_utilities.Sockets.Sys.{
  Errno, code_of, would_block, Call, returned, failed, Sync, is_valid_socket_raw, Os, Heap,
  ClientSocket, ServerSocket, Ended, ended, thrown, client_of, set_internal_data, invalid_handle,
  find_live,
}

-- `FullAddress ClientSocket::dump_self()`; `none` is a handle that is null or not live.
unfoldable pub dump_self : ClientSocket → Heap → Option FullAddress
dump_self s heap = if s.client_handle == 0 then none else find_live s.client_handle heap.live

unfoldable pub dump_address : ServerSocket → ServerAddress
dump_address s = s.server_addr

module _ (os : Os) where
  -- A call of `listen` and the exception that its failure throws.
  abbrev pub attempt :
      {A B : Type 0}
      → Call A × os.World
      → (Errno → SocketException)
      → (A → os.World → Ended os.World B)
      → Ended os.World B
  attempt (returned a, w) e next = next a w
  attempt (failed n, w) e next = thrown (e n) w

  abbrev no_reuse : Errno → SocketException
  no_reuse n = plain socket_exception (text "setsockopt(SO_REUSEADDR) failed")

  -- The result is the socket behind the call. What a failed call has opened stays open.
  unfoldable pub listen : Sync → ServerSocket → os.World → Ended os.World ServerSocket
  listen is_sync s w =
      attempt (os.open_socket w is_sync)
        (λ n. with_code create_error (text "Create failed!") (code_of n))
        (λ listen_fd w₁. attempt (os.set_reuse w₁ listen_fd) no_reuse (λ _ w₂.
          attempt (os.bind_port w₂ listen_fd s.server_addr.port)
            (λ n. with_code bind_error (text "Can not bind the socket!") (code_of n))
            (λ _ w₃.
              attempt (os.listen_on w₃ listen_fd)
                (λ n. with_code listen_error (text "Can not listen") (code_of n))
                (λ _ w₄. ended (record s { is_sync = is_sync; socket_fd = listen_fd }) w₄))))

  -- A client socket, or none where there is no client yet. `make_shared` leaves `isSync` unset.
  unfoldable pub accept :
      Sync → Sync → ServerSocket → Heap × os.World → Ended (Heap × os.World) (Option ClientSocket)
  accept uninitialised is_sync s (heap, w) =
      let (res, w') = os.accept4 w s.socket_fd is_sync in
      let called : Ended (Heap × os.World) (Option ClientSocket) = elim res [
        | failed n ↦
            if would_block n
            then ended none (heap, w')
            else thrown (plain accept_error (text "Error in Accept!")) (heap, w')
        | returned (fd, cli) ↦
            let (result, heap') = set_internal_data cli (client_of uninitialised fd) heap in
            ended (some (record result { is_sync = is_sync })) (heap', w')
      ] in
      if is_valid_socket_raw s.socket_fd then called else thrown invalid_handle (heap, w)
