-- ===== src/Comm.antt =====
-- src/comm.h and src/comm.cpp: the messages between the parts.
pub mod Buffer
pub mod Messages
pub mod Layout
pub mod Receive
pub mod RoundTrip
pub mod Attempts
pub mod FiveAttempts
