-- ===== src/Utils.antt =====
-- include/utils and src/utils: the helpers that the other parts of the framework share.
pub mod CircuitBreaker
pub mod Retry
pub mod Types
