-- ===== src/Auth.antt =====
-- Sign-in and rights: apps/frontend/src/app/core/auth/.
mod Tests
pub mod Session
pub mod Facade
pub mod Flows
pub mod Interceptor
pub mod OneRefresh
pub mod Permissions
