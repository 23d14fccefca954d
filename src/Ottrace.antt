-- ===== src/Ottrace.antt =====
-- The propagator of OT trace headers.
pub mod Baggage
pub mod Ids
pub mod Propagator
mod Tests
