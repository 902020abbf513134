-- ===== src/Game.antt =====
-- The game "Who Played For Both?": apps/frontend/src/app/features/games/played-for-both/.
mod Tests
pub mod Index
pub mod Pairs
pub mod Pool
pub mod Draw
pub mod Random
pub mod Store
pub mod Event
pub mod Play
