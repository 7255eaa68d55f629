-- ===== src/Tests/Requests.antt =====
-- Requests on the wire: a small one with a body of two bytes, and one with a chunked body.
use ccnet_utilities.Common.{◌≡◌, refl, false, none, some, [], ◌∷◌, ◌++◌, arith, Bytes, codes}
use ccnet_utilities.CoroHttp.RequestTrip.{
  Meant, header_block, Gets, Within, read_request-print, read_request-Chunked,
}
use ccnet_utilities.Cpp.Numbers.{to_string}
use ccnet_utilities.Http.Headers.{case_insensitive_eq}
use ccnet_utilities.Http.Method
use ccnet_utilities.Http.Method.{is_invalid_method}
use ccnet_utilities.Http.Exceptions.{ok}
use ccnet_utilities.Http.Version
use ccnet_utilities.Tests.Stream.{two}
use ccnet_utilities.Http.Version.{v1_1, is_invalid_http_version}
use ccnet_utilities.Http.Request.{Request}
use ccnet_utilities.Http.Request.Multipart.{all_seg_terminate}
use ccnet_utilities.Http.Request.Parse.{parse_request}
use ccnet_utilities.Http.Request.Print.{Field, IsField, plain, value_of}
use ccnet_utilities.Http.Request.Print.Words.{IsWord, plain_text, plain_text-NoSpaces}
use ccnet_utilities.Http.Request.Print.RoundTrip.{print, IsRead, parse_request-print}
use ccnet_utilities.Utils.Copy.{is_space, to_lower, to_lower_copy}
use ccnet_utilities.Utils.Copy.Tight.{NoSpaces-IsTight}
use ccnet_utilities.Tests.Wire.{wire_reads, wire_delivers, small_blocks}

abbrev pub length_field : Field
length_field = record { key = codes "content-length"; value = codes "2" }

abbrev chunked_field : Field
chunked_field = record { key = codes "transfer-encoding"; value = codes "Chunked" }

pub echo-IsWord : IsWord (codes "/echo")
unfolding is_space plain_text
echo-IsWord = (λ e. cc, plain_text-NoSpaces (codes "/echo") refl)

pub length_field-IsField : IsField length_field
unfolding is_space plain_text to_lower_copy to_lower
length_field-IsField = record {
  named = λ e. cc;
  no_spaces = plain_text-NoSpaces (codes "content-length") refl;
  no_colon = omega arith;
  lower = refl;
  one_line = omega arith;
  tight = NoSpaces-IsTight (codes "2") (plain_text-NoSpaces (codes "2") refl);
}

chunked_field-IsField : IsField chunked_field
unfolding is_space plain_text to_lower_copy to_lower
chunked_field-IsField = record {
  named = λ e. cc;
  no_spaces = plain_text-NoSpaces (codes "transfer-encoding") refl;
  no_colon = omega arith;
  lower = refl;
  one_line = omega arith;
  tight = NoSpaces-IsTight (codes "Chunked") (plain_text-NoSpaces (codes "Chunked") refl);
}

pub post_known : is_invalid_method Method.post ≡ false
unfolding is_invalid_method
post_known = refl

pub v1_1_valid : is_invalid_http_version v1_1 ≡ false
unfolding is_invalid_http_version
v1_1_valid = refl

abbrev pub emptied : Bytes → Bytes
emptied key = []

parse_request-print_example :
    (req : Request) × (parse_request emptied
        (print Method.post (codes "/echo") v1_1 (length_field ∷ []))
      ≡ ok req)
    × IsRead req Method.post v1_1 (codes "/echo") [] (length_field ∷ [])
parse_request-print_example =
    parse_request-print emptied Method.post v1_1 (codes "/echo") (codes "/echo") []
      (length_field ∷ []) post_known v1_1_valid echo-IsWord (plain (codes "/echo") (omega arith))
      (length_field-IsField, tt) (omega arith)

abbrev echo_with : (f : Field) → IsField f → Meant
echo_with f h = record {
  method = Method.post;
  version = v1_1;
  target = codes "/echo";
  path = codes "/echo";
  params = [];
  fields = f ∷ [];
  known = post_known;
  valid = v1_1_valid;
  word = echo-IsWord;
  asks = plain (codes "/echo") (omega arith);
  printable = (h, tt);
  few = omega arith;
}

abbrev pub sized_echo : Meant
sized_echo = echo_with length_field length_field-IsField

abbrev chunked_echo : Meant
chunked_echo = echo_with chunked_field chunked_field-IsField

post_text : Method.to_string Method.post ≡ codes "POST"
unfolding Method.to_string
post_text = refl

pub sized_within : Within small_blocks sized_echo
unfolding Method.to_string Version.version_string
sized_within = (omega arith, omega arith)

chunked_within : Within small_blocks chunked_echo
unfolding Method.to_string Version.version_string
chunked_within = (omega arith, omega arith)

pub sized_value : value_of (codes "content-length") none (length_field ∷ []) ≡ some (to_string 2)
unfolding value_of case_insensitive_eq to_lower to_string
sized_value = refl

read_request-print_example :
    Gets small_blocks wire_reads wire_delivers
      (omega arith)
      (omega arith)
      false
      emptied
      sized_echo
      sized_within
      100
      []
      (header_block sized_echo ++ (all_seg_terminate ++ (codes "hi" ++ codes "GET")), [])
      (codes "hi")
unfolding Method.to_string Version.version_string
read_request-print_example =
    read_request-print small_blocks wire_reads wire_delivers (omega arith) (omega arith) false
      emptied sized_echo sized_within 100 [] (codes "hi") (codes "GET")
      (header_block sized_echo ++ (all_seg_terminate ++ (codes "hi" ++ codes "GET")), []) refl
      sized_value (omega arith) (omega arith) (omega arith)

chunked_unsized : value_of (codes "content-length") none (chunked_field ∷ []) ≡ none
unfolding value_of case_insensitive_eq to_lower
chunked_unsized = refl

chunked_value :
    value_of (codes "transfer-encoding") none (chunked_field ∷ []) ≡ some (codes "Chunked")
unfolding value_of case_insensitive_eq to_lower
chunked_value = refl

chunked_lower : to_lower_copy (codes "Chunked") ≡ codes "chunked"
unfolding to_lower_copy to_lower
chunked_lower = refl

read_request-Chunked_example :
    Gets small_blocks wire_reads wire_delivers
      (omega arith)
      (omega arith)
      false
      emptied
      chunked_echo
      chunked_within
      120
      []
      (
        header_block chunked_echo
            ++ (all_seg_terminate ++ (codes "2\r\nhi\r\n0\r\n\r\n" ++ codes "GET")),
        [],
      )
      (codes "hi")
unfolding Method.to_string Version.version_string
read_request-Chunked_example =
    read_request-Chunked small_blocks wire_reads wire_delivers (omega arith) (omega arith) false
      emptied chunked_echo chunked_within 120 [] (codes "2\r\nhi\r\n0\r\n\r\n") (codes "hi")
      (codes "GET") (codes "Chunked")
      (
        header_block chunked_echo
            ++ (all_seg_terminate ++ (codes "2\r\nhi\r\n0\r\n\r\n" ++ codes "GET")),
        [],
      )
      refl two chunked_unsized chunked_value chunked_lower (omega arith) (omega arith) (omega arith)
      (omega arith)
