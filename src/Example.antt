-- ===== src/Example.antt =====
-- The programs of example/coro_example, which serve clients by the library.
pub mod Echo
pub mod HttpServer
