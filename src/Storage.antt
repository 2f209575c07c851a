-- ===== src/Storage.antt =====
-- The store of files, matrices and vectors (src/storage/hadoop_storage.cpp).
pub mod Streams
pub mod Matrices
pub mod Format
pub mod Hadoop
pub mod Saved
