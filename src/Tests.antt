-- ===== src/Tests.antt =====
-- The theorems of the library at concrete inputs, on the sizes and the byte order of x86-64 Linux.
pub mod Replies
pub mod Requests
pub mod Sessions
pub mod Daemon
pub mod Flows
pub mod Listing
pub mod Machine
pub mod Tui
pub mod Wired
pub mod Adopted
pub mod Served
pub mod Callers
pub mod Init
pub mod Environment
