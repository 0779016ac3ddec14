-- ===== src/Workflow.antt =====
-- The workflow engine (internal/workflow): its types, state machine and stores.
pub mod Jobs
pub mod Types
pub mod Machine
pub mod Requests
pub mod Replay
pub mod Memory
pub mod Milestones
pub mod Sqlite
mod Tests
