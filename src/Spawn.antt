-- ===== src/Spawn.antt =====
-- ports/nacl-spawn: the start of a process, and its talk with the browser.
pub mod Untar
pub mod Var
pub mod Samples
pub mod Pipes
pub mod Apipe
pub mod Paths
pub mod Elf
pub mod Libraries
pub mod Script
pub mod Nmf
pub mod Fds
pub mod Requests
pub mod Replies
pub mod Setup
