-- ===== src/Http/Method.antt =====
-- library/http/methods.h and methods.cpp.
use ccnet_utilities.Common.{
  Bool, true, false, List, [], ◌∷◌, if◌then◌else◌, Bytes, codes, equal, equal_iff, ◌≡◌, ◌≢◌, refl,
  arith,
}

pub data HttpMethod : Type 0 where
  get post put delete head options patch unknown : HttpMethod

-- The table of methods.cpp.
abbrev pub map : List (Bytes × HttpMethod)
map =
    (codes "GET", get)
    ∷ (codes "POST", post)
    ∷ (codes "PUT", put)
    ∷ (codes "DELETE", delete)
    ∷ (codes "HEAD", head)
    ∷ (codes "OPTIONS", options)
    ∷ (codes "PATCH", patch)
    ∷ []

unfoldable pub to_string : HttpMethod → Bytes
to_string get = codes "GET"
to_string post = codes "POST"
to_string put = codes "PUT"
to_string delete = codes "DELETE"
to_string head = codes "HEAD"
to_string options = codes "OPTIONS"
to_string patch = codes "PATCH"
to_string unknown = codes "UNKNOWN"

-- `map.find(s)`, with `UNKNOWN` where it finds nothing.
unfoldable pub find_method : List (Bytes × HttpMethod) → Bytes → HttpMethod
find_method [] s = unknown
find_method ((k, m) ∷ rest) s = if equal k s then m else find_method rest s

unfoldable pub parse_http_method : Bytes → HttpMethod
unfolding find_method equal
parse_http_method s = find_method map s

unfoldable pub is_unknown_method : HttpMethod → Bool
is_unknown_method unknown = true
is_unknown_method _ = false

unfoldable pub is_invalid_method : HttpMethod → Bool
unfolding is_unknown_method
is_invalid_method m = is_unknown_method m

-- A method's name is parsed to the method, also for `UNKNOWN`.
pub parse_http_method-to_string : (m : HttpMethod) → parse_http_method (to_string m) ≡ m
unfolding parse_http_method to_string
parse_http_method-to_string get = refl
parse_http_method-to_string _ = refl

abbrev Named : List (Bytes × HttpMethod) → Type 0
Named [] = Unit {0}
Named ((k, m) ∷ rest) = (to_string m ≡ k) × Named rest

find_method-Named :
    (t : List (Bytes × HttpMethod)) (s : Bytes)
    → Named t
    → find_method t s ≢ unknown
    → to_string (find_method t s) ≡ s
unfolding find_method
find_method-Named [] s n h = absurd (h refl)
find_method-Named ((k, m) ∷ rest) s n h =
    ground (arith, equal_iff k s, find_method-Named rest s n.1)

map-Named : Named map
unfolding to_string
map-Named = (refl, (refl, (refl, (refl, (refl, (refl, (refl, tt)))))))

not_invalid : (m : HttpMethod) → m ≡ unknown → is_unknown_method m ≡ false → ⊥
unfolding is_unknown_method
not_invalid m e h = ground arith

-- A text that is parsed to a method other than `UNKNOWN` is exactly the name of that method.
pub to_string-parse_http_method :
    (s : Bytes)
    → is_invalid_method (parse_http_method s) ≡ false
    → to_string (parse_http_method s) ≡ s
unfolding parse_http_method is_invalid_method
to_string-parse_http_method s h =
    find_method-Named map s map-Named (λ e. not_invalid (find_method map s) e h)
