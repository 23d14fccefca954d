-- ===== src/Opamp.antt =====
-- The OpAMP agent: its client, its jobs, and the threads that send them.
pub mod Proto
pub mod Client
pub mod Job
pub mod Agent
mod Tests
