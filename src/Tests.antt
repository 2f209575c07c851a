-- ===== src/Tests.antt =====
-- Runs of the theorems at concrete inputs.
mod Pipelines
mod Helpers
mod Notices
mod Servers
mod Audits
mod Pools
mod Stores
mod Sockets
mod Monitors
mod Bytes
mod Logins
mod Routes
mod Requests
mod Profiles
