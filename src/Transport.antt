-- ===== src/Transport.antt =====
-- src/pymod/transport: the part of it that is not input and output.
pub mod Runs
pub mod RtuResponse
pub mod RtuOverTcp
pub mod Serial
pub mod Tcp
