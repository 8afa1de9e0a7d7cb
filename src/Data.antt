-- ===== src/Data.antt =====
-- data/: the live feed.
pub mod LiveFeed
