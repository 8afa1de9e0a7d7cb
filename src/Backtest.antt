-- ===== src/Backtest.antt =====
-- backtest/: the cost model and the engine that walks over bars.
pub mod Costs
pub mod Engine
