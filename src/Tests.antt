-- ===== src/Tests.antt =====
-- The theorems at concrete inputs.
pub mod Wire
mod Messages
mod Parse
mod Stream
mod Requests
mod Examples
mod Frames
mod Platform
mod Sockets
mod Listening
mod Json
