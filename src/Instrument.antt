-- ===== src/Instrument.antt =====
-- Instrumentors: their dependencies, their state, and how they are loaded.
mod Dependencies
mod Instrumentor
mod Load
mod Tests
