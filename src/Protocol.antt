-- ===== src/Protocol.antt =====
-- src/pymod/protocol: the codecs of one request or response, and the two framings.
pub mod Pdu
pub mod AduTcp
pub mod AduRtu
