-- ===== src/Sockets/Address.antt =====
-- library/sys_socket/socket_address.h and socket_address.cpp.
use ccnet_utilities.Common.{ℕ, ◌++◌, Bytes, codes}
use ccnet_utilities.Cpp.Numbers.{to_string}

-- A `netport_t` is below 2 ^ 16.
pub record ServerAddress : Type 0 where
  pub port : ℕ

pub record FullAddress : Type 0 where
  pub address : Bytes
  pub port : ℕ

unfoldable pub dump_server : ServerAddress → Bytes
dump_server a = codes "[localhost: " ++ (to_string a.port ++ codes "]")

unfoldable pub dump_full : FullAddress → Bytes
dump_full a = codes "[" ++ (a.address ++ (codes ": " ++ (to_string a.port ++ codes "]")))
