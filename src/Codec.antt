-- ===== src/Codec.antt =====
-- src/pymod/codec: typed values and bits over blocks of registers.
pub mod Runs
pub mod Float
pub mod Common
pub mod Values
pub mod Bits
