-- ===== src/Web.antt =====
-- `WebServer`: the parts of src/web/web_server.cpp that keep state.
pub mod Sessions
pub mod Accounts
pub mod ResponseCache
pub mod Frames
pub mod Rooms
pub mod Messages
pub mod Admission
pub mod Texts
pub mod Tokens
pub mod Sanitizing
pub mod Errors
pub mod Routing
pub mod Login
pub mod Protection
pub mod Negotiation
pub mod Analytics
pub mod Checks
pub mod Requests
