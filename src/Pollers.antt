-- ===== src/Pollers.antt =====
-- internal/pollers: the background jobs. Tracker has the tracker poller's event loop and passes,
-- Maintenance the nightly job. Log lines and the timers' clocks are left out.
pub mod Tracker
pub mod Maintenance
