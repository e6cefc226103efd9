-- ===== src/Scheduler.antt =====
-- src/scheduler.h, src/scheduler.cpp and src/schd-priority.cpp: the daemon that gives the token.
pub mod Defs
pub mod Client
pub mod Usage
pub mod Select
pub mod Priority
pub mod Valid
pub mod Rounds
pub mod Selection
pub mod Requests
pub mod Daemon
pub mod Safety
pub mod Queue
pub mod Loop
pub mod Account
pub mod Conservation
pub mod Waiting
pub mod Exclusion
pub mod Config
pub mod Wire
pub mod Session
pub mod ResourceFile
pub mod ResourceText
pub mod Start
pub mod Monitor
pub mod Options
pub mod FilePath
