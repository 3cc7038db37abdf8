-- ===== src/Publication.antt =====
-- crates/revoot-core/src/publication.rs: the publication of findings as comments.
pub mod Markers
pub mod Lineage
pub mod Hex
pub mod Parsed
pub mod Notes
pub mod Terminal
mod Tests
