-- ===== src/CoroHttp.antt =====
-- library/coro_http: requests read from a socket and responses written to it, on what `co_await`
-- makes of a task (platform/coro_platform/Task.hpp).
pub mod Task
pub mod Socket
pub mod Reader
pub mod Writer
pub mod RoundTrip
pub mod RequestTrip
