-- ===== src/Engine.antt =====
-- src/core/engine.cpp: the engine's parts.
pub mod Media
pub mod Link
pub mod State
pub mod Commands
pub mod Create
pub mod Api
pub mod Life
pub mod Loop
mod Checks
