-- ===== src/Engine.antt =====
-- The input engines: core/include/ziliu/core/engine.h, core/src/candidate_filter.cpp and
-- core/src/stub_engine.cpp.
pub mod Interface
pub mod Han
pub mod Stub
