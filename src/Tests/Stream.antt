-- ===== src/Tests/Stream.antt =====
-- The reader and the writer on `wire`.
use ccnet_utilities.Common.{
  ℕ, ◌≤◌, ◌≡◌, refl, some, List, [], ◌++◌, arith, length, take, Bytes, codes, find_byte, ◌⊎◌, none,
}
use ccnet_utilities.Tests.Wire.{
  wire, wire_reads, wire_delivers, wire_writes, wire_accepts, small_blocks,
}
use ccnet_utilities.CoroHttp.Task.{returned}
use ccnet_utilities.CoroHttp.Reader.Chunked.{
  Chunked, Decoded, chunk, last, decode_chunked_body-Chunked, IsSizeLine,
}
use ccnet_utilities.CoroHttp.Reader.Header.{HeaderRead, read_until_double_crlf-HeaderRead}
use ccnet_utilities.CoroHttp.Reader.Exact.{Ends, read_exact-Ends}
use ccnet_utilities.CoroHttp.Reader.Body.{reply, read_sized_body_any, read_sized_body-take}
use ccnet_utilities.CoroHttp.Reader.{
  read_until_double_crlf, read_exact, cut_extension, read_sized_body, decode_chunked_body,
}
use ccnet_utilities.CoroHttp.RoundTrip.{decode_chunked_body-write_chunked}
use ccnet_utilities.CoroHttp.Writer.Chunks.{Sends, write_chunked-Sends}
use ccnet_utilities.CoroHttp.Writer.Sized.{message, write_nonchunked-Sent}
use ccnet_utilities.CoroHttp.Writer.Head.{sized_response_lem}
use ccnet_utilities.CoroHttp.RoundTrip.{read_sized_body-write_nonchunked}
use ccnet_utilities.CoroHttp.Writer.{
  write_chunked, chunked_response, sized_response, write_nonchunked, write_chunks,
}
use ccnet_utilities.Cpp.Numbers.{
  to_string, format_hex, print_digits, digit_char, stoull, stoull_hex,
}
use ccnet_utilities.Http.Status.{to_int, reason_phrase}
use ccnet_utilities.Http.Version.{version_string}
use ccnet_utilities.Http.Headers
use ccnet_utilities.Http.Request
use ccnet_utilities.Http.Response
use ccnet_utilities.Http.Response.{Response, format_header, length_line, status_line, header_lines}

abbrev hello : Response
hello = record Response.initial { body = codes "hello" }

abbrev iterate : List (Bytes × Bytes) → List (Bytes × Bytes)
iterate m = m

abbrev head : Bytes
head = format_header iterate (chunked_response hello)

abbrev chunks : Bytes
chunks = codes "3\r\nhel\r\n2\r\nlo\r\n0\r\n\r\n"

write_chunked-hello :
    write_chunked wire small_blocks 6 iterate hello ([], []) ≡ returned tt ([], head ++ chunks)
unfolding write_chunked write_chunks chunked_response format_header status_line length_line
    header_lines to_string format_hex print_digits digit_char version_string to_int reason_phrase
    Headers.set Headers.erase Headers.assign Headers.erase_item Headers.case_insensitive_eq
    Headers.has Headers.find_item
write_chunked-hello = refl

decode_chunked_body-write_chunked_example :
    Decoded wire_reads
      (decode_chunked_body wire small_blocks 30
        (codes "3\r\nh")
        (codes "el\r\n2\r\nlo\r\n0\r\n\r\nGET", []))
      (codes "hello")
      (codes "GET")
decode_chunked_body-write_chunked_example =
    decode_chunked_body-write_chunked small_blocks small_blocks wire_writes wire_accepts wire_reads
      wire_delivers 6 30 iterate hello ([], []) ([], head ++ chunks)
      (codes "el\r\n2\r\nlo\r\n0\r\n\r\nGET", []) (codes "3\r\nh") (codes "GET") chunks
      (omega arith) (omega arith) (omega arith) (omega arith) (omega arith) (omega arith)
      write_chunked-hello refl refl (omega arith) (omega arith) (omega arith)

write_chunked-Sends_example :
    Sends small_blocks wire_writes wire_accepts
      (omega arith)
      (omega arith)
      (write_chunked wire small_blocks 6 iterate hello ([], []))
      ([], [])
      head
      (codes "hello")
write_chunked-Sends_example =
    write_chunked-Sends small_blocks wire_writes wire_accepts (omega arith) (omega arith) 6 iterate
      hello ([], []) (omega arith)

read_until_double_crlf-HeaderRead_example :
    HeaderRead small_blocks wire_reads 65539 []
      (codes "GET / HTTP/1.1\r\n\r\n", [])
      (read_until_double_crlf wire small_blocks 65538 [] (codes "GET / HTTP/1.1\r\n\r\n", []))
read_until_double_crlf-HeaderRead_example =
    read_until_double_crlf-HeaderRead small_blocks wire_reads 65539 65538 []
      (codes "GET / HTTP/1.1\r\n\r\n", []) (omega arith) (omega arith)
      (omega arith, omega arith, omega arith)

read_exact-Ends_example :
    Ends small_blocks wire_reads
      (omega arith)
      (omega arith)
      (read_exact wire small_blocks 6 (codes "a") 6 (codes "bcd", []))
      (codes "a")
      6
      (codes "bcd", [])
read_exact-Ends_example =
    read_exact-Ends small_blocks wire_reads (omega arith) (omega arith) 6 (codes "a") 6
      (codes "bcd", []) (omega arith)

six : stoull (codes "6") ≡ some 6
unfolding stoull
six = refl

read_sized_body_any_example :
    (seen : Bytes) × (st' : Bytes × Bytes) × (read_sized_body wire small_blocks 7
        (codes "6")
        Request.initial
        (codes "a")
        []
        (codes "bcd", [])
      ≡ reply small_blocks wire_reads (omega arith) (omega arith) Request.initial 6 seen [] st')
    × (seen ++ st'.0 ≡ codes "abcd")
read_sized_body_any_example =
    read_sized_body_any small_blocks wire_reads (omega arith) (omega arith) 7 6 (codes "6")
      Request.initial (codes "a") [] (codes "bcd", []) six (omega arith) (omega arith)

read_sized_body-take_example :
    (st' : Bytes × Bytes) × (read_sized_body wire small_blocks 7
        (codes "6")
        Request.initial
        (codes "a")
        []
        (codes "bcdefgh", [])
      ≡ reply small_blocks wire_reads
          (omega arith)
          (omega arith)
          Request.initial
          6
          (codes "abcdefgh")
          []
          st')
read_sized_body-take_example =
    read_sized_body-take small_blocks wire_reads (omega arith) (omega arith) 7 6 (codes "6")
      Request.initial (codes "a") [] (codes "bcdefgh", []) wire_delivers six (omega arith)
      (omega arith) (omega arith)

write_nonchunked-Sent_example :
    (st' : Bytes × Bytes) × (k : ℕ) × (k ≤ length (message iterate hello))
    × (write_nonchunked wire small_blocks iterate hello ([], []) ≡ returned tt st')
    × (st'.1 ≡ take k (message iterate hello))
    × ((k ≡ length (message iterate hello))
        ⊎ ((wire.async_write ([], []) (message iterate hello)).0 ≡ none))
write_nonchunked-Sent_example =
    write_nonchunked-Sent small_blocks wire_writes iterate hello ([], [])

sized_response_lem_example :
    (Headers.get (sized_response hello).headers (codes "content-length") ≡ some (to_string 5))
    × (Headers.get (sized_response hello).headers (codes "connection") ≡ some (codes "close"))
    × (length_line (sized_response hello) ≡ [])
unfolding Headers.get
sized_response_lem_example = sized_response_lem hello

two_line : IsSizeLine (codes "2") 2
unfolding stoull_hex cut_extension find_byte
two_line = record { one_line = omega arith; size = refl }

zero_line : IsSizeLine (codes "0") 0
unfolding stoull_hex cut_extension find_byte
zero_line = record { one_line = omega arith; size = refl }

pub two : Chunked (codes "2\r\nhi\r\n0\r\n\r\n") (codes "hi")
two =
    chunk (codes "2") (codes "hi") (codes "0\r\n\r\n") [] refl refl two_line (omega arith)
      (last (codes "0") refl refl zero_line)

decode_chunked_body-Chunked_example :
    Decoded wire_reads
      (decode_chunked_body wire small_blocks 20 (codes "2\r\nh") (codes "i\r\n0\r\n\r\nGET", []))
      (codes "hi")
      (codes "GET")
decode_chunked_body-Chunked_example =
    decode_chunked_body-Chunked small_blocks wire_reads wire_delivers (omega arith) (omega arith)
      (omega arith) {s = codes "2\r\nhi\r\n0\r\n\r\n"} {b = codes "hi"} 20 (codes "2\r\nh")
      (codes "GET") (codes "i\r\n0\r\n\r\nGET", []) two (omega arith) (omega arith) refl
      (omega arith)

read_sized_body-write_nonchunked_example :
    (content_length : Bytes) × (st' : Bytes × Bytes) × (st_in' : Bytes × Bytes) × (Headers.get
        (sized_response hello).headers
        (codes "content-length")
      ≡ some content_length)
    × (write_nonchunked wire small_blocks iterate hello ([], []) ≡ returned tt st')
    × (st'.1 ≡ [] ++ (format_header iterate (sized_response hello) ++ hello.body))
    × (read_sized_body wire small_blocks 9 content_length Request.initial
          (codes "he")
          []
          (codes "lloGET", [])
        ≡ returned (some (record Request.initial { body = hello.body })) ([], st_in'))
unfolding Headers.get Headers.find_item
read_sized_body-write_nonchunked_example =
    read_sized_body-write_nonchunked small_blocks small_blocks wire_writes wire_accepts wire_reads
      wire_delivers 9 iterate hello Request.initial (codes "he") [] (codes "GET") ([], [])
      (codes "lloGET", []) refl (omega arith) (omega arith) (omega arith) (omega arith)
      (omega arith) refl
