-- ===== src/Forms.antt =====
-- What people type, and the forms that read it: apps/frontend/src/app/shared/util/ and the forms of
-- apps/frontend/src/app/features/.
pub mod Money
pub mod Dates
pub mod Fields
pub mod Submit
pub mod Player
pub mod Transfer
pub mod Tests
