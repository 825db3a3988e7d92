-- ===== src/Rewrite.antt =====
-- src/rewrite: the rewrite layer.
pub mod Ir
pub mod Layout
pub mod Plan
pub mod Space
