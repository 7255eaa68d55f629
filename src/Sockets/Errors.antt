-- ===== src/Sockets/Errors.antt =====
-- library/socket_exception.hpp: the exception classes, a constructor for each in `SocketKind`.
use ccnet_utilities.Common.{ℕ, Option, ◌++◌, if◌then◌else◌, Bytes, codes}
use ccnet_utilities.Common.{ℤ, pos}
use ccnet_utilities.Cpp.Numbers.{int_to_string}
use ccnet_utilities.Platform.Exceptions.{is_zero, system_msg}

pub data SocketKind : Type 0 where
  socket_exception create_error connect_error bind_error listen_error : SocketKind
  accept_error send_error receive_error address_resolution_error : SocketKind

pub record SocketException : Type 0 where
  pub kind : SocketKind
  pub message : Bytes
  pub native_error_code : ℤ

-- An exception with no error code.
abbrev pub plain : SocketKind → Bytes → SocketException
plain k m = record { kind = k; message = m; native_error_code = pos 0 }

abbrev pub with_code : SocketKind → Bytes → ℕ → SocketException
with_code k m code = record { kind = k; message = m; native_error_code = pos code }

-- What `what()` returns. `system_message` is that of `Platform.Exceptions`.
unfoldable pub build_message : (ℤ → Option Bytes) → Bytes → ℤ → Bytes
build_message system_message message error_code =
    if is_zero error_code
    then message
    else message
      ++ (codes " [Error Code: "
          ++ (int_to_string error_code
              ++ (codes " / Description: " ++ (system_msg system_message error_code ++ codes "]"))))

unfoldable pub get_error_code : SocketException → ℤ
get_error_code e = e.native_error_code
