-- ===== src/Http.antt =====
-- library/http: the messages, their parts and the request parser.
pub mod Exceptions
pub mod Method
pub mod Version
pub mod Status
pub mod Headers
pub mod ServerConfig
pub mod Response
pub mod QueryMap
pub mod Request
pub mod JsonForm
