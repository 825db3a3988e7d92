-- ===== src/Mc.antt =====
-- src/mc: the architecture-neutral machine-code layer.
pub mod ControlFlow
pub mod Cfg
