-- ===== src/Misc.antt =====
-- src/misc.c: small helpers for texts, sizes and messages.
pub mod Text
pub mod Sizes
pub mod Stream
pub mod Client
