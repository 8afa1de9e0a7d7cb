-- ===== src/Execution/Kite.antt =====
-- execution/kite.py, `class KiteBroker`: a limit entry and one two-leg GTT for the exit, driven by
-- polling and persisted in the order store.
pub mod Client
pub mod Monad
pub mod Payload
pub mod Place
pub mod Poll
pub mod Flatten
