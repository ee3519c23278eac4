-- ===== src/Entry.antt =====
-- src/modules and src/entrypoints: which workers there are, and what a command line runs.
pub mod Modules
pub mod Dispatch
pub mod Running
pub mod Closing
pub mod Resolution
mod Tests
