-- ===== src/Tui.antt =====
-- The terminal application `DinixApp` (tui/src/dinix_tui/app.py): the worker that owns a client of
-- dinit, the queue of commands, and the calls that it makes on the table and the log.
pub mod Act
pub mod State
pub mod Interfaces
pub mod Text
pub mod Handles
pub mod Reload
pub mod Worker
pub mod Keys
pub mod Run
pub mod Serving
pub mod Loading
pub mod Table
pub mod Keeps
pub mod Quiet
pub mod Sound
pub mod Session
pub mod Survives
pub mod Directory
pub mod Pointer
pub mod Adopting
pub mod Rejecting
pub mod Lines
pub mod Chunks
pub mod Connected
