-- ===== src/Platform.antt =====
-- platform/coro_platform: the event manager on epoll and the scheduler of the coroutines.
pub mod Exceptions
pub mod Events
pub mod Scheduler
pub mod Frames
