-- ===== src/Ipc/Responses.antt =====
-- EncodeResponse and DecodeResponse of core/src/ipc_protocol.cpp, and how they undo each other.
pub mod Encoder
pub mod Decoder
pub mod Valid
pub mod RoundTrip
pub mod Parts
pub mod Tail
pub mod Canonical
