-- ===== src/Sampler/Tests.antt =====
-- Runs of the sampler at concrete inputs, and the theorems at inputs where their hypotheses hold.
mod Values
mod Parts
mod Whole
