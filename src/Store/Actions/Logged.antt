-- ===== src/Store/Actions/Logged.antt =====
-- The audit log gives back what was appended.
use triagearr.Base.Text.{Text}
