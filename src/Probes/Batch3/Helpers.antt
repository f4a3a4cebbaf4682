-- ===== src/Probes/Batch3/Helpers.antt =====
-- test-harness/probes/batch3.py: what the features share.
use claude_studio.Python.Json.{Json}
use claude_studio.Python.Stateful.{Stateful}
use claude_studio.Probes.Steps.{Harness}

module _ {W : Type 0} (h : Harness W) where
  unfoldable pub chk : Json → Stateful W Json
  chk payload = h.request "permissions.check" payload
