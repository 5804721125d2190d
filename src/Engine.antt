-- ===== src/Engine.antt =====
-- The authoritative engine, src/simple-dnsd/core/engine.cpp.
pub mod State
pub mod Cache
pub mod Limiter
pub mod Access
pub mod Answer
pub mod Transfer
pub mod Update
pub mod Handle
