-- ===== src/Scorer.antt =====
-- internal/scorer: the delete score of a torrent.
pub mod Trackers
pub mod Policy
pub mod Factors
pub mod Tags
pub mod Exclusions
pub mod Pass
