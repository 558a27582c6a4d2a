-- ===== src/Task.antt =====
-- kmod/task.c and kmod/user.h: records, actions, the control file, and making a task.
pub mod Ctrl
pub mod Queue
pub mod Table
pub mod Read
pub mod Create
mod Tests
