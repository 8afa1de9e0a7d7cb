-- ===== src/Execution.antt =====
-- The package execution/: brokers, the persisted life of an order, retries.
pub mod Exceptions
pub mod Retry
pub mod Broker
pub mod Paper
pub mod OrderState
pub mod Kite
pub mod Reconciler
