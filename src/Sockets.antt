-- ===== src/Sockets.antt =====
-- library/sys_socket and library/coro_sockets: sockets of the operating system, and their coroutines.
pub mod Errors
pub mod Address
pub mod Sys
pub mod Server
pub mod Owner
pub mod Coro
pub mod Helper
pub mod Await
