-- ===== src/Resources.antt =====
-- The pool of resources (src/resources/resource_pool.cpp, include/resources/resource_pool.h).
pub mod Pool
pub mod Calls
pub mod Releases
pub mod Choice
pub mod Waiting
pub mod Capacity
pub mod Runs
pub mod Kept
