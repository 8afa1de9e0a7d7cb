-- ===== src/Orchestrator.antt =====
-- orchestrator/: the market's calendar and the loop that takes a signal to the broker.
pub mod Scheduler
pub mod Loop
pub mod Bars
