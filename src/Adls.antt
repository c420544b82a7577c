-- ===== src/Adls.antt =====
-- src/adls.rs: the view of the source fields in an Audulus document.
pub mod Kind
pub mod Error
pub mod Parser
pub mod Table
pub mod Layout
pub mod Document
pub mod Rewrite
pub mod Tests
