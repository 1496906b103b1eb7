-- ===== src/Notify.antt =====
-- internal/notify: what the operator is told. Event has the taxonomy, Format the events of a run, an
-- alert and a health transition, and Dispatch who gets them. The providers, package fmt and the
-- texts of wrapped errors are parameters; log lines are left out.
pub mod Event
pub mod Format
pub mod Dispatch
