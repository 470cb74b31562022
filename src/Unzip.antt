-- ===== src/Unzip.antt =====
-- The zip reader of bklib/bkunzip.cpp.
pub mod Cipher
pub mod Locate
pub mod Reader
pub mod Entry
pub mod Directory
pub mod File
pub mod Archive
