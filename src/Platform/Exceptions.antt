-- ===== src/Platform/Exceptions.antt =====
-- platform/coro_platform/IOEvent_Exception.hpp: the exception classes, a constructor for each in
-- `IoKind`. `system_message` is `std::system_category().message`, which may throw (`none`).
use ccnet_utilities.Common.{
  Bool, false, Option, none, some, ◌++◌, ◌==◌, if◌then◌else◌, Bytes, codes,
}
use ccnet_utilities.Common.{ℤ, pos, negsuc}
use ccnet_utilities.Cpp.Numbers.{int_to_string}

pub data IoKind : Type 0 where
  epoll_create_error epoll_ctl_error epoll_wait_error : IoKind
  epoll_unsupportive_event invalid_fd_exception : IoKind

pub record IoManagerException : Type 0 where
  pub kind : IoKind
  pub message : Bytes
  pub native_error_code : ℤ

-- The description of an error code.
unfoldable pub system_msg : (ℤ → Option Bytes) → ℤ → Bytes
system_msg system_message code = elim (system_message code) [
  | none ↦ codes "Unknown system error"
  | some m ↦ m
]

abbrev pub is_zero : ℤ → Bool
is_zero (pos n) = n == 0
is_zero (negsuc n) = false

-- `build_message`, which gives what `what()` returns.
unfoldable pub build_message : (ℤ → Option Bytes) → Bytes → ℤ → Bytes
build_message system_message message error_code =
    if is_zero error_code
    then message
    else message
      ++ (codes " [error_code = "
          ++ (int_to_string error_code
              ++ (codes " : " ++ (system_msg system_message error_code ++ codes "]"))))

unfoldable pub what : (ℤ → Option Bytes) → IoManagerException → Bytes
what system_message e = build_message system_message e.message e.native_error_code
