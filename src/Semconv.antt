-- ===== src/Semconv.antt =====
-- The modes of the semantic conventions and the attributes that they set, _semconv.py.
pub mod Modes
pub mod Setters
mod Status
mod Tests
