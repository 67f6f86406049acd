-- ===== src/Settings.antt =====
-- The settings of core/src/settings.cpp and core/include/ziliu/core/settings.h: their text, the colors
-- in it, and the pages of the candidate list.
pub mod Paging
pub mod Colors
pub mod Types
pub mod Values
pub mod Branches
pub mod Parse
pub mod Serialize
pub mod Lines
pub mod Choices
pub mod ValueLaws
pub mod Entries
pub mod RoundTrip
