-- ===== src/Http/Exceptions.antt =====
-- library/http/http_exceptions.h and json_helper/json_to_http.h: the exception classes, a constructor
-- for each in `Kind`, and results that a `throw` ends.
use ccnet_utilities.Common.{Option, ◌++◌, if◌then◌else◌, Bytes, codes}
use ccnet_utilities.Common.{ℤ}
use ccnet_utilities.Cpp.Numbers.{int_to_string}
use ccnet_utilities.Platform.Exceptions.{is_zero, system_msg}

pub data Kind : Type 0 where
  http_request_parse_error http_header_too_large http_reader_body_error : Kind
  http_chunk_error http_request_path_error url_decoding_error : Kind
  failed_parse_form request_json_parse_failed : Kind
  -- `std::length_error`, which a string throws that would grow beyond `max_size()`
  length_error : Kind

-- Each `throw` of the library leaves `error_code` at its default 0, so `what()` is the message.
pub record HttpException : Type 0 where
  pub kind : Kind
  pub message : Bytes

pub data Result {ℓ} (A : Type ℓ) : Type ℓ where
  ok : A → Result A
  err : HttpException → Result A

abbrev pub throw {ℓ} : {A : Type ℓ} → Kind → Bytes → Result A
throw k m = err (record { kind = k; message = m })

infixl 5 ◌>>=◌
abbrev pub ◌>>=◌ {ℓ κ} : {A : Type ℓ} {B : Type κ} → Result A → (A → Result B) → Result B
ok value >>= next = next value
err thrown >>= next = err thrown

-- What `what()` returns. `system_message` is that of `Platform.Exceptions`.
unfoldable pub build_message : (ℤ → Option Bytes) → Bytes → ℤ → Bytes
build_message system_message message error_code =
    if is_zero error_code
    then message
    else message
      ++ (codes " [Error Code: "
          ++ (int_to_string error_code
              ++ (codes " / Description: " ++ (system_msg system_message error_code ++ codes "]"))))
