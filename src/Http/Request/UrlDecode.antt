-- ===== src/Http/Request/UrlDecode.antt =====
-- `url_decode` of library/http/http_request.cpp.
use ccnet_utilities.Common.{
  ℕ, ◌+◌, ◌*◌, ◌%◌, ◌^◌, ◌<◌, ◌≡◌, refl, ap, ◌∙◌, ◌≢◌, true, false, none, some, [], ◌∷◌, ◌++◌,
  append_assoc, append-nil, arith, ◌==◌, if◌then◌else◌, Bytes, text, lt→ltb,
}
use ccnet_utilities.Cpp.Numbers.{
  extract_hex, hex_value, digit, read_sign, hex_prefix, bounded, starts_digit, read_digits,
}
use ccnet_utilities.Utils.Copy.{is_space}
use ccnet_utilities.Cpp.Words.{skip_spaces}
use ccnet_utilities.Http.Exceptions.{Result, ok, throw, url_decoding_error}

-- `static_cast<char>(val)`.
abbrev pub to_char : ℕ → ℕ
to_char val = val % 256

-- The loop over what is left of `s`, for the result `out`. `i + 2 < s.size()` holds where two more
-- characters follow the `%`.
unfoldable pub decode_from : Bytes → Bytes → Bytes → Result Bytes
unfolding extract_hex
decode_from s [] out = ok out
decode_from s (c ∷ []) out = ok (out ++ (if c == b'+' then b' ' else c) ∷ [])
decode_from s (c ∷ a ∷ []) out =
    decode_from s (a ∷ []) (out ++ (if c == b'+' then b' ' else c) ∷ [])
decode_from s (c ∷ a ∷ b ∷ r) out =
    let plain = decode_from s (a ∷ b ∷ r) (out ++ (if c == b'+' then b' ' else c) ∷ []) in
    let escape : Result Bytes = elim (extract_hex (a ∷ b ∷ [])) [
      | none ↦ throw url_decoding_error (text "Decoding failed when attempting with " ++ s)
      | some val ↦ decode_from s r (out ++ to_char val ∷ [])
    ] in
    if c == b'+' then plain else if c == b'%' then escape else plain

unfoldable pub url_decode : Bytes → Result Bytes
unfolding decode_from
url_decode s = decode_from s s []

-- `e` spells `d`: a character for itself, `+` for a space, or `%` and two hexadecimal digits.
pub data Spells : Bytes → Bytes → Type 0 where
  end : Spells [] []
  plain : {c : ℕ} {e d : Bytes} → c ≢ b'+' → c ≢ b'%' → Spells e d → Spells (c ∷ e) (c ∷ d)
  plus : {c : ℕ} {e d : Bytes} → c ≡ b'+' → Spells e d → Spells (c ∷ e) (b' ' ∷ d)
  escape :
      {c a b h l : ℕ} {e d : Bytes}
      → c ≡ b'%'
      → digit 16 a ≡ some h
      → digit 16 b ≡ some l
      → Spells e d
      → Spells (c ∷ a ∷ b ∷ e) ((h * 16 + l) ∷ d)

decode_from_other :
    (s e out : Bytes) (c : ℕ)
    → c ≢ b'%'
    → decode_from s (c ∷ e) out ≡ decode_from s e (out ++ (if c == b'+' then b' ' else c) ∷ [])
decode_from_other s [] out c h = unfold decode_from in refl
decode_from_other s (a ∷ []) out c h = unfold decode_from in refl
decode_from_other s (a ∷ b ∷ r) out c h = unfold decode_from in ground arith

digit_facts :
    (a h : ℕ)
    → digit 16 a ≡ some h
    → (is_space a ≡ false)
      × ((a == b'-') ≡ false)
      × ((a == b'+') ≡ false)
      × ((a == b'x') ≡ false)
      × ((a == b'X') ≡ false)
      × (h < 16)
unfolding digit is_space
digit_facts a h e =
    (ground arith, ground arith, ground arith, ground arith, ground arith, ground arith)

skip_spaces_digits : (a h : ℕ) (s : Bytes) → digit 16 a ≡ some h → skip_spaces (a ∷ s) ≡ a ∷ s
unfolding skip_spaces
skip_spaces_digits a h s e = rw (digit_facts a h e).0

read_sign_digits : (a h : ℕ) (s : Bytes) → digit 16 a ≡ some h → read_sign (a ∷ s) ≡ (false, a ∷ s)
unfolding read_sign
read_sign_digits a h s e = rw ((digit_facts a h e).1, (digit_facts a h e).2)

hex_prefix_digits : (a b l : ℕ) (s : Bytes) → digit 16 b ≡ some l → hex_prefix (a ∷ b ∷ s) ≡ none
unfolding hex_prefix
hex_prefix_digits a b l s e = ground (arith, (digit_facts b l e).3, (digit_facts b l e).4)

read_two :
    (a b h l : ℕ)
    → digit 16 a ≡ some h
    → digit 16 b ≡ some l
    → (starts_digit 16 (a ∷ b ∷ []) ≡ true) × (read_digits 16 0 (a ∷ b ∷ []) ≡ h * 16 + l)
unfolding starts_digit read_digits
read_two a b h l ea eb =
    (rw (ea, starts_digit), rw (ea, read_digits) (rw (eb, read_digits) (omega arith)))

bounded_two :
    (a b h l : ℕ)
    → digit 16 a ≡ some h
    → digit 16 b ≡ some l
    → bounded 32 (false, a ∷ b ∷ []) 16 ≡ some (h * 16 + l)
unfolding bounded
bounded_two a b h l ea eb =
    let (starts, value) = read_two a b h l ea eb in
    let fits : h * 16 + l < 2 ^ 32 =
      omega (arith, (digit_facts a h ea).5, (digit_facts b l eb).5) in
    rw (starts, value, lt→ltb (h * 16 + l) (2 ^ 32) fits)

hex_value_two :
    (a b h l : ℕ)
    → digit 16 a ≡ some h
    → digit 16 b ≡ some l
    → hex_value (false, a ∷ b ∷ []) ≡ some (h * 16 + l)
unfolding hex_value
hex_value_two a b h l ea eb = rw (hex_prefix_digits a b l [] eb) (bounded_two a b h l ea eb)

extract_hex-digits :
    (a b h l : ℕ)
    → digit 16 a ≡ some h
    → digit 16 b ≡ some l
    → extract_hex (a ∷ b ∷ []) ≡ some (h * 16 + l)
unfolding extract_hex
extract_hex-digits a b h l ea eb =
    ap (λ t. hex_value (read_sign t)) (skip_spaces_digits a h (b ∷ []) ea)
    ∙ ap hex_value (read_sign_digits a h (b ∷ []) ea)
    ∙ hex_value_two a b h l ea eb

decode_from_escape :
    (s e out : Bytes) (a b h l : ℕ)
    → digit 16 a ≡ some h
    → digit 16 b ≡ some l
    → decode_from s (b'%' ∷ a ∷ b ∷ e) out ≡ decode_from s e (out ++ (h * 16 + l) ∷ [])
unfolding decode_from
decode_from_escape s e out a b h l ea eb =
    let small : (h * 16 + l) % 256 ≡ h * 16 + l =
      omega (arith, (digit_facts a h ea).5, (digit_facts b l eb).5) in
    rw (extract_hex-digits a b h l ea eb) (rw small)

decode_from-Spells :
    (s : Bytes) {e d : Bytes} (out : Bytes) → Spells e d → decode_from s e out ≡ ok (out ++ d)
decode_from-Spells s out end = rw append-nil (unfold decode_from in refl)
decode_from-Spells s out (plain {c} {e} {d} np ne t) =
    decode_from_other s e out c ne
    ∙ decode_from-Spells s (out ++ (if c == b'+' then b' ' else c) ∷ []) t
    ∙ rw append_assoc (ground arith)
decode_from-Spells s out (plus {c} {e} {d} p t) =
    decode_from_other s e out c (omega arith)
    ∙ decode_from-Spells s (out ++ (if c == b'+' then b' ' else c) ∷ []) t
    ∙ rw append_assoc (ground arith)
decode_from-Spells s out (escape {c} {a} {b} {h} {l} {e} {d} p ea eb t) = rw p (
    decode_from_escape s e out a b h l ea eb
    ∙ decode_from-Spells s (out ++ (h * 16 + l) ∷ []) t
    ∙ rw append_assoc)

-- A text that spells another, with `+` for a space, `%` and two hexadecimal digits for a byte and
-- other characters for themselves, is decoded to it.
pub url_decode-Spells : {e d : Bytes} → Spells e d → url_decode e ≡ ok d
unfolding url_decode
url_decode-Spells {e} {d} t = decode_from-Spells e [] t
