-- ===== src/Ipc/Requests.antt =====
-- EncodeRequest and DecodeRequest of core/src/ipc_protocol.cpp, and how they undo each other.
pub mod Encoder
pub mod Decoder
pub mod RoundTrip
pub mod Canonical
