-- ===== src/Render.antt =====
-- internal/core/render: the entry node's routing compiler, and the simulator that explains it.
pub mod Netip
pub mod Config
pub mod Matching
pub mod Compiler
pub mod Simulator
pub mod SingBox
pub mod Agreement
