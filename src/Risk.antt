-- ===== src/Risk.antt =====
-- The package risk/: the checks around a new entry and the size of the position, over the settings of
-- config/settings.py.
pub mod Windows
pub mod Manager
