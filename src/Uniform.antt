-- ===== src/Uniform.antt =====
-- Uniform sparse linear maps: src/uniform.rs.
pub mod Row
pub mod Core
pub mod Bincode
pub mod Codec
pub mod Channel
pub mod Solver
pub mod Build
pub mod RandomMap
pub mod ApproxSet
pub mod Files
