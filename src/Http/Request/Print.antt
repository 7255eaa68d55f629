-- ===== src/Http/Request/Print.antt =====
-- The text of a request, as a client sends it, and what its headers say. This is no code of the
-- sources: it is the format that the constructor of `Request` is to read.
pub mod Lines
pub mod Loop
pub mod Words
pub mod RoundTrip
pub mod Block
use ccnet_utilities.Common.{
  ℕ, zero, suc, ◌+◌, ◌-◌, ◌*◌, ◌/◌, ◌%◌, ◌^◌, ◌≤◌, ◌<◌, min, ◌≡◌, refl, sym, ap, ◌∙◌, subst, ◌≢◌,
  ◌↔◌, ◌⊎◌, inl, inr, Bool, true, false, not, ◌&&◌, ◌||◌, Option, none, some, List, [], ◌∷◌, ◌++◌,
  append_assoc, append-nil, arith, dec_lt, dec_le, ltb, leb, ◌==◌, if◌then◌else◌, within,
  Bool-cases, Option-cases, ==_iff, length, take, drop, length-append, length-take, length-drop,
  take-append-drop, All, Bytes, codes, text, equal, equal_iff, find, find_byte, substr, Lacks,
}
use ccnet_utilities.Cpp.Words.{NoSpaces}
use ccnet_utilities.Utils.Copy.{to_lower_copy, is_space}
use ccnet_utilities.Utils.Copy.Tight.{IsTight}
use ccnet_utilities.Http.Headers
use ccnet_utilities.Http.Headers.{Headers, case_insensitive_eq}
use ccnet_utilities.Http.Method.{HttpMethod, to_string, is_invalid_method}
use ccnet_utilities.Http.Exceptions.{ok}
use ccnet_utilities.Http.QueryMap.{QueryMap}
use ccnet_utilities.Http.Request.Multipart.{crlf}
use ccnet_utilities.Http.Request.Query.{filled_params_query}
use ccnet_utilities.Http.Version.{HttpVersion, version_string, is_invalid_http_version}

pub record Field : Type 0 where
  pub key : Bytes
  pub value : Bytes

abbrev pub line_of : Field → Bytes
line_of f = f.key ++ (b':' ∷ b' ' ∷ f.value)

-- The lines behind the start line, with a line end in front of each.
abbrev pub lines_of : List Field → Bytes
lines_of [] = []
lines_of (f ∷ fs) = b'\r' ∷ b'\n' ∷ (line_of f ++ lines_of fs)

abbrev pub start_line : Bytes → Bytes → Bytes → Bytes
start_line method target version = method ++ b' ' ∷ (target ++ b' ' ∷ version)

-- A key in lower case with no spaces and no colon, and a value of one line with no space at its ends.
pub record IsField (f : Field) : Type 0 where
  pub named : f.key ≢ []
  pub no_spaces : NoSpaces f.key
  pub no_colon : Lacks b':' f.key
  pub lower : to_lower_copy f.key ≡ f.key
  pub one_line : Lacks b'\n' f.value
  pub tight : IsTight f.value

abbrev pub AreFields : List Field → Type 0
AreFields [] = Unit {0}
AreFields (f ∷ fs) = IsField f × AreFields fs

-- The value that the fields give to a header under any spelling of its key: those of all fields with
-- that key, joined by a comma and a space. `old` is the value before them.
abbrev pub joined : Option Bytes → Bytes → Option Bytes
joined none v = some v
joined (some old) v = some (old ++ codes ", " ++ v)

unfoldable pub value_of : Bytes → Option Bytes → List Field → Option Bytes
value_of j old [] = old
value_of j old (f ∷ fs) =
    value_of j (if case_insensitive_eq f.key j then joined old f.value else old) fs

-- What is asked for: a path alone, or a path and a query that can be decoded.
pub data Asks : Bytes → Bytes → QueryMap → Type 0 where
  plain : (path : Bytes) → Lacks b'?' path → Asks path path []
  query :
      (path q : Bytes) (params : QueryMap)
      → Lacks b'?' path
      → filled_params_query q ≡ ok params
      → Asks (path ++ b'?' ∷ q) path params
