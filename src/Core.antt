-- ===== src/Core.antt =====
-- The package core/: the data that every other part exchanges.
pub mod Bar
pub mod Signal
pub mod Instrument
