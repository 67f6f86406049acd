-- ===== src/Theme.antt =====
-- The theme manifest of core/src/theme_manifest.cpp: its data, its reader, validation and writer. The
-- JSON reader stands under Json.
pub mod Types
pub mod Paths
pub mod Destination
pub mod PathLaws
pub mod ImageNames
pub mod Validate
pub mod Assets
pub mod Fields
pub mod Sections
pub mod Reader
pub mod Manifest
pub mod ManifestLaws
pub mod Colors
pub mod Bounds
pub mod Writer
pub mod Serialize
