-- ===== src/Ipc.antt =====
-- The broker protocol: core/include/ziliu/core/ipc_protocol.h and core/src/ipc_protocol.cpp.
pub mod Types
pub mod Utf
pub mod Writer
pub mod Reader
pub mod Versions
pub mod Requests
pub mod Responses
