-- ===== src/Fragment.antt =====
-- src/fragment.rs: canonical fragment values, the marker parser and the surgical rewriter.
pub mod Path
pub mod Hash
pub mod Canonical
pub mod Lines
pub mod Marker
pub mod Source
pub mod Rewrite
pub mod Tests
