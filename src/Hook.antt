-- ===== src/Hook.antt =====
-- src/hook.cpp: the hooks around CUDA calls.
pub mod Device
pub mod Accounts
pub mod Process
pub mod Launch
pub mod Tokens
pub mod Symbols
pub mod Lookup
pub mod Arrays
pub mod Shared
pub mod Interleaved
pub mod Communicate
pub mod Wire
pub mod Token
pub mod Connection
pub mod Ports
pub mod Tracker
