-- ===== src/Platform.antt =====
-- The job platform.
pub mod Tables
pub mod Queue
pub mod Submit
pub mod Submission
pub mod Unique
pub mod Candidate
pub mod Checks
pub mod Log
pub mod Journal
pub mod Steps
pub mod Evolution
pub mod Lifecycle
pub mod Leasing
pub mod Fencing
pub mod Stranded
pub mod Documents
pub mod Claims
pub mod Outboxes
pub mod Replay
pub mod AccessLaws
pub mod Submitted
pub mod Idempotency
pub mod Stored
pub mod Conflicts
pub mod Delivery
pub mod Access
