-- ===== src/Http/Request/Parse/StartLine.antt =====
-- Start lines that are accepted.
use ccnet_utilities.Common.{refl}
use ccnet_utilities.Http.Exceptions.{HttpException, http_request_parse_error, err}
use ccnet_utilities.Common.{◌+◌, none, some, subst, sym, ap, ◌∙◌, text, substr, drop, ◌++◌}
use ccnet_utilities.Common.{
  inl, inr, Bool-cases, Option-cases, Bytes, find_byte, ℕ, ◌≡◌, false, true, some, subst, none,
}
use ccnet_utilities.Http.Headers
use ccnet_utilities.Http.Headers.{Headers}
use ccnet_utilities.Http.Request.Parse.{
  ok, set_target, set_version, Result, set_method, Request, ◌>>=◌, is_invalid_http_version,
  is_invalid_method, parse_http_method, from_string, parse_start_line, filled_params_query,
  start_words, initial,
}

-- Results that are not an exception.
pub value-of {ℓ} : {A : Type ℓ} {a b : A} → ok a ≡ ok b → a ≡ b
value-of e = cc

pub both_ok {ℓ κ} :
    {A : Type ℓ} {B : Type κ} {last : B} (first : Result A) (second : A → Result B)
    → first >>= second ≡ ok last
    → (middle : A) × (second middle ≡ ok last) × (first ≡ ok middle)
both_ok (err thrown) second e = cc
both_ok (ok middle) second e = (middle, e, refl)

pub err-ne-ok {ℓ} : {A : Type ℓ} {thrown : HttpException} {a : A} → err thrown ≡ ok a → ⊥
err-ne-ok e = cc

method_error : Bytes → HttpException
method_error s = record {
  kind = http_request_parse_error;
  message = text "Can not parse method, method is unsupported: " ++ s;
}

set_method_bad :
    (s : Bytes) (req : Request)
    → is_invalid_method (parse_http_method s) ≡ true
    → set_method s req ≡ err (method_error s)
unfolding set_method method_error
set_method_bad s req e = rw e

pub set_method_good :
    (s : Bytes) (req : Request)
    → is_invalid_method (parse_http_method s) ≡ false
    → set_method s req ≡ ok (record req { method = parse_http_method s })
unfolding set_method
set_method_good s req e = rw e

set_method_ok :
    (s : Bytes) (req req' : Request)
    → set_method s req ≡ ok req'
    → (req'.headers ≡ req.headers) × (is_invalid_method req'.method ≡ false)
set_method_ok s req req' e = elim (Bool-cases (is_invalid_method (parse_http_method s))) [
  | inl bad ↦ absurd (err-ne-ok (sym (set_method_bad s req bad) ∙ e))
  | inr good ↦
      let same = value-of (sym (set_method_good s req good) ∙ e) in
      (ap (λ r. r.headers) (sym same), subst (λ r. is_invalid_method r.method ≡ false) same good)
]

version_error : Bytes → HttpException
version_error s = record {
  kind = http_request_parse_error;
  message = text "Can not parse version, version is unknown: " ++ s;
}

set_version_bad :
    (s : Bytes) (req : Request)
    → is_invalid_http_version (from_string s) ≡ true
    → set_version s req ≡ err (version_error s)
unfolding set_version version_error
set_version_bad s req e = rw e

pub set_version_good :
    (s : Bytes) (req : Request)
    → is_invalid_http_version (from_string s) ≡ false
    → set_version s req ≡ ok (record req { version = from_string s })
unfolding set_version
set_version_good s req e = rw e

set_version_ok :
    (s : Bytes) (req req' : Request)
    → set_version s req ≡ ok req'
    → (req'.headers ≡ req.headers)
      × (req'.method ≡ req.method)
      × (is_invalid_http_version req'.version ≡ false)
set_version_ok s req req' e = elim (Bool-cases (is_invalid_http_version (from_string s))) [
  | inl bad ↦ absurd (err-ne-ok (sym (set_version_bad s req bad) ∙ e))
  | inr good ↦
      let same = value-of (sym (set_version_good s req good) ∙ e) in
      (
        ap (λ r. r.headers) (sym same),
        ap (λ r. r.method) (sym same),
        subst (λ r. is_invalid_http_version r.version ≡ false) same good,
      )
]

pub set_target_plain :
    (s : Bytes) (req : Request)
    → find_byte s b'?' ≡ none
    → set_target s req ≡ ok (record req { path = s })
unfolding set_target
set_target_plain s req e = rw (e, set_target)

pub set_target_query :
    (s : Bytes) (req : Request) (i : ℕ)
    → find_byte s b'?' ≡ some i
    → set_target s req ≡ (
        filled_params_query (drop (i + 1) s)
        >>= (λ params. ok (record req { path = substr s 0 i; from_url_params = params })))
unfolding set_target
set_target_query s req i e = rw (e, set_target)

set_target_ok :
    (s : Bytes) (req req' : Request)
    → set_target s req ≡ ok req'
    → (req'.headers ≡ req.headers) × (req'.method ≡ req.method)
set_target_ok s req req' e = elim (Option-cases (find_byte s b'?')) [
  | inl plain ↦
      let same = value-of (sym (set_target_plain s req plain) ∙ e) in
      (ap (λ r. r.headers) (sym same), ap (λ r. r.method) (sym same))
  | inr (i, query) ↦
      let (params, done, decoded) =
        both_ok (filled_params_query (drop (i + 1) s))
          (λ params. ok (record req { path = substr s 0 i; from_url_params = params }))
          (sym (set_target_query s req i query) ∙ e) in
      let same = value-of done in (ap (λ r. r.headers) (sym same), ap (λ r. r.method) (sym same))
]

-- A start line that is accepted.
pub parse_start_line_words :
    (line m target v : Bytes)
    → start_words line ≡ some (m, target, v)
    → parse_start_line line
      ≡ (set_method m initial >>= (λ r. set_target target r >>= (λ r'. set_version v r')))
unfolding parse_start_line
parse_start_line_words line m target v e = rw (e, parse_start_line)

words_error : HttpException
words_error = record {
  kind = http_request_parse_error;
  message = text "Can not parse method/request/versions for the first line";
}

parse_start_line_bad :
    (line : Bytes) → start_words line ≡ none → parse_start_line line ≡ err words_error
unfolding parse_start_line words_error
parse_start_line_bad line e = rw (e, parse_start_line)

pub parse_start_line_ok :
    (line : Bytes) (req : Request)
    → parse_start_line line ≡ ok req
    → (req.headers ≡ Headers.empty)
      × (is_invalid_method req.method ≡ false)
      × (is_invalid_http_version req.version ≡ false)
parse_start_line_ok line req e = elim (Option-cases (start_words line)) [
  | inl none_of ↦ absurd (err-ne-ok (sym (parse_start_line_bad line none_of) ∙ e))
  | inr ((m, target, v), words) ↦
      let (r, e₁, made) =
        both_ok (set_method m initial) (λ r. set_target target r >>= (λ r'. set_version v r'))
          (sym (parse_start_line_words line m target v words) ∙ e) in
      let (r', e₂, targeted) = both_ok (set_target target r) (λ r'. set_version v r') e₁ in
      let (h₁, valid) = set_method_ok m initial r made in
      let (h₂, m₂) = set_target_ok target r r' targeted in
      let (h₃, m₃, known) = set_version_ok v r' req e₂ in
      (h₃ ∙ h₂ ∙ h₁, ap is_invalid_method (m₃ ∙ m₂) ∙ valid, known)
]
