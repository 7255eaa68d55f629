-- ===== src/Tests/Examples.antt =====
-- Clients of the example servers: one that says hello and quits, and one that posts two bytes.
use ccnet_utilities.Common.{refl, List, [], ◌∷◌, ◌++◌, arith, Bytes, codes}
use ccnet_utilities.CoroHttp.RequestTrip.{Meant, header_block}
use ccnet_utilities.CoroHttp.Socket.{Duplex}
use ccnet_utilities.Example.Echo.{welcome, handle_client}
use ccnet_utilities.Example.Echo.Echoes.{Echoes, handle_client-Echoes}
use ccnet_utilities.Http.Method
use ccnet_utilities.Http.Request.{Request}
use ccnet_utilities.Http.Request.Multipart.{all_seg_terminate}
use ccnet_utilities.Http.Request.Print.{Field, IsField, plain}
use ccnet_utilities.Http.Request.Print.Words.{plain_text, plain_text-NoSpaces}
use ccnet_utilities.Http.Status
use ccnet_utilities.Http.Version
use ccnet_utilities.Http.Version.{v1_1}
use ccnet_utilities.Tests.Requests.{
  length_field, length_field-IsField, echo-IsWord, post_known, v1_1_valid,
}
use ccnet_utilities.Tests.Wire.{wire, wire_reads, wire_writes, wire_delivers, wire_accepts}
use ccnet_utilities.Utils.Copy.{is_space, to_lower, to_lower_copy}
use ccnet_utilities.Utils.Copy.Tight.{NoSpaces-IsTight}

abbrev wire_duplex : Duplex wire_reads wire_writes
wire_duplex = record { read_sent = λ st n. refl; write_pending = λ st bs. refl }

abbrev closed : Bytes × Bytes → Bytes × Bytes
closed st = ([], st.1)

handle_client-Echoes_example :
    Echoes wire_delivers wire_accepts wire_duplex closed
      (handle_client wire closed 10 (codes "hello", []))
      (codes "hello", [])
      welcome
handle_client-Echoes_example =
    handle_client-Echoes wire_delivers wire_accepts wire_duplex closed 10 (codes "hello", [])
      (omega arith)

abbrev close_field : Field
close_field = record { key = codes "connection"; value = codes "Close" }

close_field-IsField : IsField close_field
unfolding is_space plain_text to_lower_copy to_lower
close_field-IsField = record {
  named = λ e. cc;
  no_spaces = plain_text-NoSpaces (codes "connection") refl;
  no_colon = omega arith;
  lower = refl;
  one_line = omega arith;
  tight = NoSpaces-IsTight (codes "Close") (plain_text-NoSpaces (codes "Close") refl);
}

abbrev closing_echo : Meant
closing_echo = record {
  method = Method.post;
  version = v1_1;
  target = codes "/echo";
  path = codes "/echo";
  params = [];
  fields = close_field ∷ length_field ∷ [];
  known = post_known;
  valid = v1_1_valid;
  word = echo-IsWord;
  asks = plain (codes "/echo") (omega arith);
  printable = (close_field-IsField, (length_field-IsField, tt));
  few = omega arith;
}

abbrev as_listed : List (Bytes × Bytes) → List (Bytes × Bytes)
as_listed items = items

abbrev posted : Bytes × Bytes
posted = (header_block closing_echo ++ (all_seg_terminate ++ (codes "hi" ++ codes "GET")), [])
