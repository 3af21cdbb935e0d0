-- ===== src/Lifecycle.antt =====
-- The driver's life: the callbacks of c_src/erlxsl.c in any order, and what every one of them keeps.
pub mod Structures
pub mod Buffers
pub mod Decoding
pub mod Requests
pub mod Setup
pub mod Trace
