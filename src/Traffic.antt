-- ===== src/Traffic.antt =====
-- Requests of several processes that one port serves at a time: the emulator calls `outputv`, the
-- thread function `apply_transform` and `ready_async` of c_src/erlxsl.c in any order that its
-- `driver_async` allows.
pub mod System
pub mod Held
pub mod Apart
pub mod Submits
pub mod Transforms
pub mod Answers
pub mod Served
pub mod Reached
pub mod Runs
pub mod Progress
