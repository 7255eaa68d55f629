-- ===== src/Tests/Parse.antt =====
-- A whole header block.
use ccnet_utilities.Http.Request.Parse.Folded.{header_line-add_header}
use ccnet_utilities.Http.Request.Parse.{HeaderState}
use ccnet_utilities.Common.{◌≡◌, refl, [], ◌∷◌, Bytes, codes, find_byte}
use ccnet_utilities.Http.Headers
use ccnet_utilities.Http.Method
use ccnet_utilities.Http.Request.Parse.{add_header, header_line}
use ccnet_utilities.Http.Request.{Request, initial}
use ccnet_utilities.Http.Version.{v1_1}

abbrev block : Bytes
block = codes "GET /a HTTP/1.1\r\nHost: b\r\n  c\r\n"

-- What the C++ library leaves in practice.
abbrev emptied : Bytes → Bytes
emptied key = []

-- The second line of `host` is passed over.
abbrev accepted : Request
accepted = record initial {
  method = Method.get;
  path = codes "/a";
  version = v1_1;
  headers = record { items = (codes "host", codes "b") ∷ [] };
}

-- The headers `te: a`, of which the last key is `te`.
abbrev behind_te : HeaderState
behind_te = record {
  pos = 20;
  header_count = 2;
  last_key = codes "te";
  headers = record { items = (codes "te", codes "a") ∷ [] };
}

header_line-add_header_example :
    header_line emptied (codes "  c") (add_header emptied (codes "host") (codes "b") behind_te)
    ≡ add_header emptied (codes "host") (codes "b") behind_te
unfolding Headers.get Headers.find_item Headers.case_insensitive_eq find_byte
header_line-add_header_example =
    header_line-add_header emptied (codes "host") (codes "b") (codes "  c") behind_te refl refl refl
