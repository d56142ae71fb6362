-- ===== src/Tests.antt =====
-- The theorems at concrete inputs, with a small stand-in for the cryptography.
mod Data
mod Knocks
mod Parts
mod Unlocks
mod Runs
mod Setup
mod Windows
mod Enrol
mod Whole
