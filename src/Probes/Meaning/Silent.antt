-- ===== src/Probes/Meaning/Silent.antt =====
-- test-harness/probes/batch20.py: the request that stands outside of every `try`.
use claude_studio.Prelude.{◌≡◌, arith}
use claude_studio.Python.Json.{obj, end}
use claude_studio.Python.Result.{Exception, ok, err}
use claude_studio.Probes.Steps.{Harness, Run, in_core}
use claude_studio.Probes.Batch20.{settings, features, main}

module _ {W : Type 0} (h : Harness W) where
  -- If the core is launched and the client connects, but the list of the tools cannot be read, then
  -- `main` of batch20 raises, and none of its three features is reported: nothing is recorded and
  -- nothing printed, and the core is stopped.
  pub main_silent :
      (s : Run W) (e : Exception)
      → let w = (h.launch (settings h) s.world).1 in
        (h.launch (settings h) s.world).0 ≡ ok tt
        → (h.connect 15 w).0 ≡ ok tt
        → (h.request "mcp.tools" (obj end) (h.connect 15 w).1).0 ≡ err e
        → let s' = (main h s).1 in
          ((main h s).0 ≡ err e)
          × (s'.results ≡ s.results)
          × (s'.printed ≡ s.printed)
          × (s'.world ≡ h.stop (h.request "mcp.tools" (obj end) (h.connect 15 w).1).1)
  unfolding main features in_core
  main_silent s e up there away = ground arith
