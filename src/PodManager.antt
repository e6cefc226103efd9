-- ===== src/PodManager.antt =====
-- src/pod-manager.cpp: what a Pod manager keeps for the hook libraries that connect to it.
pub mod Memory
pub mod Accounting
pub mod Updates
pub mod Server
pub mod Wire
pub mod Service
pub mod Session
pub mod Accepting
pub mod Recovery
pub mod Startup
pub mod Launch
pub mod Balance
pub mod Quota
