-- ===== src/Api.antt =====
-- Reading the API: apps/frontend/src/app/core/api/.
mod Tests
pub mod Page
pub mod Lookup
pub mod Names
pub mod Error
pub mod Batches
pub mod Cache
