-- ===== src/Board.antt =====
-- The tactics board: apps/frontend/src/app/features/tactics/board/.
mod Tests
pub mod Doc
pub mod Defaults
pub mod Standing
pub mod Position
pub mod Look
pub mod Geometry
pub mod Formation
pub mod Playback
pub mod Player
pub mod Curves
pub mod Ribbon
