-- ===== src/Sockets/Coro/Requests.antt =====
-- A request that comes over the coroutines of the sockets.
use ccnet_utilities.Common.{
  ℕ, ◌+◌, ◌^◌, ◌≤◌, ◌<◌, ◌≡◌, Bool, none, some, ◌++◌, within, length, Bytes, codes,
}
use ccnet_utilities.Common.{ℤ}
use ccnet_utilities.CoroHttp.Reader.{max_temp_read_buffer}
use ccnet_utilities.CoroHttp.RequestTrip.{Meant, header_block, Gets, Within, read_request-print}
use ccnet_utilities.Cpp.Numbers.{to_string}
use ccnet_utilities.Http.Request.Multipart.{all_seg_terminate}
use ccnet_utilities.Http.Request.Print.{value_of}
use ccnet_utilities.Http.ServerConfig.{ServerConfig}
use ccnet_utilities.Sockets.Coro.{Async, World}
use ccnet_utilities.Sockets.Coro.Interface.{stream_reads, stream_delivers}
use ccnet_utilities.Sockets.Coro.Stream.{Stream, IsHealthy}

module _ {sys : Async} {fd : ℤ} (s : Stream sys fd) where
  -- Over a stream whose `recv` does not fail, `read_request` gives back the request that a client has
  -- printed, with a `content-length` that is the size of its body, and sent with an empty line and the
  -- body behind it, and any further bytes: however often calls are interrupted, would block or give
  -- fewer bytes. The request is within the limits of the configuration, its body is below 2 ^ 64
  -- bytes, the blocks are of 1 to 4096 bytes, and the fuel is above the size of the request.
  pub read_request-stream_socket :
      (cfg : ServerConfig) (healthy : IsHealthy sys fd) (some_block : 0 < cfg.read_block)
      (small : cfg.read_block ≤ max_temp_read_buffer) (uninitialised : Bool)
      (after_move : Bytes → Bytes) (c : Meant) (within : Within cfg c) (fuel : ℕ)
      (accum body more : Bytes) (w : World sys)
      → accum ++ s.pending w ≡ header_block c ++ (all_seg_terminate ++ (body ++ more))
      → value_of (codes "content-length") none c.fields ≡ some (to_string (length body))
      → length (header_block c) + 4 + length body < fuel
      → length body ≤ cfg.max_body_bytes
      → length body < 2 ^ 64
      → Gets cfg
          (stream_reads s)
          (stream_delivers s healthy)
          some_block
          small
          uninitialised
          after_move
          c
          within
          fuel
          accum
          w
          body
  read_request-stream_socket cfg healthy some_block small uninitialised after_move c within fuel
        accum body more w e sized enough fits number =
      read_request-print cfg (stream_reads s) (stream_delivers s healthy) some_block small
        uninitialised after_move c within fuel accum body more w e sized enough fits number
