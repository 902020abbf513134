-- ===== src/Editor.antt =====
-- The board editor: apps/frontend/src/app/features/tactics/editor/editor-store.ts.
pub mod Store
pub mod Objects
pub mod Drawings
pub mod Steps
pub mod Action
pub mod History
pub mod Valid
pub mod Effects
pub mod Shows
pub mod Reorder
pub mod Placing
pub mod Saving
mod Tests
