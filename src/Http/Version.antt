-- ===== src/Http/Version.antt =====
-- library/http/http_version.hpp.
use ccnet_utilities.Common.{
  Bool, true, false, if◌then◌else◌, Bytes, codes, equal, equal_iff, ◌≡◌, arith,
}

pub data HttpVersion : Type 0 where
  v1_0 v1_1 v_unknown : HttpVersion

unfoldable pub version_string : HttpVersion → Bytes
version_string v1_0 = codes "HTTP/1.0"
version_string v1_1 = codes "HTTP/1.1"
version_string v_unknown = codes "HTTP/?"

unfoldable pub from_string : Bytes → HttpVersion
unfolding equal
from_string str =
    if equal str (codes "HTTP/1.0")
    then v1_0
    else if equal str (codes "HTTP/1.1")
    then v1_1
    else v_unknown

unfoldable pub is_invalid_http_version : HttpVersion → Bool
is_invalid_http_version v_unknown = true
is_invalid_http_version _ = false

-- A text that is read as a known version is the text of that version.
pub version_string-from_string :
    (s : Bytes)
    → is_invalid_http_version (from_string s) ≡ false
    → version_string (from_string s) ≡ s
unfolding from_string version_string is_invalid_http_version
version_string-from_string s h =
    ground (arith, equal_iff s (codes "HTTP/1.0"), equal_iff s (codes "HTTP/1.1"))
