-- ===== src/Hash.antt =====
-- The checksums and hash functions of bklib/bklib.cpp.
pub mod Crc
pub mod Mixing
pub mod Murmur
pub mod Word
pub mod Super
