-- ===== src/Http/Request/Print/Words.antt =====
-- The words of a start line.
use ccnet_utilities.Common.{
  ◌≡◌, refl, ◌∙◌, ◌≢◌, Bool, true, false, not, ◌&&◌, some, [], ◌∷◌, ◌++◌, arith, Bytes,
}
use ccnet_utilities.Cpp.Words.{NoSpaces, next_word-append, next_word_all, next_word_space}
use ccnet_utilities.Utils.Copy.{is_space}
use ccnet_utilities.Http.Method
use ccnet_utilities.Http.Method.{
  HttpMethod, to_string, is_invalid_method, parse_http_method, parse_http_method-to_string,
}
use ccnet_utilities.Http.Version.{
  HttpVersion, v1_0, v1_1, v_unknown, version_string, from_string, is_invalid_http_version,
}
use ccnet_utilities.Http.Request.Parse.{start_words}
use ccnet_utilities.Http.Request.Print.{start_line}

-- A word of the start line.
abbrev pub IsWord : Bytes → Type 0
IsWord w = (w ≢ []) × NoSpaces w

pub start_words-start_line :
    (m target v : Bytes)
    → IsWord m
    → IsWord target
    → IsWord v
    → start_words (start_line m target v) ≡ some (m, target, v)
unfolding start_words
start_words-start_line m target v hm ht hv =
    let first = next_word-append m (target ++ b' ' ∷ v) hm.0 hm.1 in
    let second = next_word_space (target ++ b' ' ∷ v) ∙ next_word-append target v ht.0 ht.1 in
    let third = next_word_space v ∙ next_word_all v hv.0 hv.1 in
    rw (first, start_words) (rw (second) (rw third refl))

-- A test for the texts of methods and versions.
unfoldable pub plain_text : Bytes → Bool
plain_text [] = true
plain_text (c ∷ s) = not (is_space c) && plain_text s

pub plain_text-NoSpaces : (s : Bytes) → plain_text s ≡ true → NoSpaces s
unfolding plain_text
plain_text-NoSpaces [] h = tt
plain_text-NoSpaces (c ∷ s) h = ground (arith, plain_text-NoSpaces s)

pub to_string-IsWord : (m : HttpMethod) → IsWord (to_string m)
unfolding to_string is_space plain_text
to_string-IsWord Method.get = (λ e. cc, plain_text-NoSpaces (to_string Method.get) refl)
to_string-IsWord m = (λ e. cc, plain_text-NoSpaces (to_string m) refl)

pub version_string-IsWord : (v : HttpVersion) → IsWord (version_string v)
unfolding version_string is_space plain_text
version_string-IsWord v1_0 = (λ e. cc, plain_text-NoSpaces (version_string v1_0) refl)
version_string-IsWord v = (λ e. cc, plain_text-NoSpaces (version_string v) refl)

pub from_string-version_string :
    (v : HttpVersion) → is_invalid_http_version v ≡ false → from_string (version_string v) ≡ v
unfolding from_string version_string is_invalid_http_version
from_string-version_string v1_0 h = refl
from_string-version_string v1_1 h = refl
from_string-version_string v_unknown h = cc
