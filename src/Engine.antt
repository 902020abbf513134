-- ===== src/Engine.antt =====
-- The pointer of the 3D board: apps/frontend/src/app/features/tactics/board/engine.ts.
pub mod Camera
pub mod Pieces
pub mod Hits
pub mod Pointer
pub mod Session
pub mod Area
pub mod Shown
mod Tests
