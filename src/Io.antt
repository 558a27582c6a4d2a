-- ===== src/Io.antt =====
-- kmod/io.c: the records that the module sends, and the channel that they travel on.
pub mod Json
pub mod Receive
pub mod Pool
pub mod Reports
mod Tests
