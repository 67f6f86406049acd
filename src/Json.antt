-- ===== src/Json.antt =====
-- The JSON reader of core/src/theme_manifest.cpp: IsValidUtf8, AppendUtf8 and the class JsonParser.
pub mod Types
pub mod Utf
pub mod Strings
pub mod Numbers
pub mod Values
pub mod Outcomes
pub mod StringOutcomes
pub mod NumberOutcomes
pub mod Invariant
pub mod ValueOutcomes
pub mod UtfLaws
pub mod Escapes
pub mod Writer
