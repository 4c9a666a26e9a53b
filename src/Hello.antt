-- ===== src/Hello.antt =====
-- examples/user-mode-hello/kernel/main.c: a kernel that maps the image in system ROM, loads one
-- user module from it into pages of its own, enters user mode and serves one system call.
pub mod Image
pub mod Pages
pub mod Tables
pub mod Module
pub mod Syscall
pub mod User
pub mod Start
mod Tests
use minimum_tests.Base.{ℕ}
