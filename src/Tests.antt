-- ===== src/Tests.antt =====
-- Concrete signals, settings, books and a client, and the theorems applied to them.
mod Data
mod Values
mod Limits
mod Book
mod Live
mod Session
mod Backtests
mod Feeds
mod Advice
mod Restart
mod Tuning
mod Screens
