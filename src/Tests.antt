-- ===== src/Tests.antt =====
-- Runs of the theorems on a small bus, over a SOEM library that is written out.
pub mod World
pub mod StateMachine
pub mod Mailbox
pub mod Access
pub mod Pdo
pub mod Diagnosing
pub mod Timing
pub mod Threads
pub mod Texts
pub mod Scanning
pub mod Masking
