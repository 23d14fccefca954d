-- ===== src/Xray.antt =====
-- The propagator of AWS X-Ray trace headers.
pub mod Hex
pub mod Api
pub mod Header
pub mod Propagator
mod Tests
