-- ===== src/Control/Compatibility/Laws.antt =====
-- The control sets that are let through (pkg/controlset/compatibility.go).
use basecheck_agent.Text.{Text}
