-- ===== src/PodManager/Quota.antt =====
-- src/pod-manager.cpp: how hook threads get the quota of the Pod, with the two threads that speak to
-- the scheduler.
pub mod State
pub mod Steps
pub mod Ownership
pub mod Requests
pub mod Delivery
pub mod Lost
pub mod Races
pub mod Updater
pub mod Bursts
