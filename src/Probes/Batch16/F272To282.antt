-- ===== src/Probes/Batch16/F272To282.antt =====
-- test-harness/probes/batch16.py: the features F272, F280, F282.
use claude_studio.Prelude.{String}
use claude_studio.Prelude.Int.{pos}
use claude_studio.Python.Json.{float, str, obj, end, field}
use claude_studio.Python.Values.{value_eq, is_true}
use claude_studio.Python.Dynamic.{item, less, absolute}
use claude_studio.Python.Stateful.{Stateful, ◌>>=◌, ◌>>◌, pure, lift}
use claude_studio.Probes.Steps.{Harness, check, ev}

module _ {W : Type 0} (h : Harness W) where
  -- F272 deploy post-health-check
  unfoldable pub f272 : Stateful W (String × String)
  f272 = do
    r ←
        h.request "monitor.health_check"
          (obj (field "url" (str "http://localhost:6333/healthz") end))
    check (is_true (← item r "ok")) ""
    path ← ev h "F272" "post-deploy.json" r
    pure (path, "Post-Deploy Health-Check der Ziel-URL")

  -- F280 budget alert at 80% of daily budget
  unfoldable pub f280 : Stateful W (String × String)
  f280 = do
    r ←
        h.request "monitor.cost_guard"
          (obj (field "spent" (float (pos 16) 0) (field "budget" (float (pos 20) 0) end)))
    check (value_eq (← item r "status") (str "warn")) ""
    path ← ev h "F280" "budget-alert.json" r
    pure (path, "Budget-Alert bei 80% des Tagesbudgets")

  -- F282 cost dashboard matches real usage
  unfoldable pub f282 : Stateful W (String × String)
  f282 = do
    sid ←
        item
          (← h.request "session.create"
            (obj (field "title" (str "x") (field "cwd" (str (h.root)) end))))
          "id"
    h.request "session.record_usage" (
        obj (
          field "session_id" sid (
            field "cost_usd" (float (pos 5944751508129055) 54) (field "model" (str "sonnet") end))))
    h.request "session.record_usage" (
        obj (
          field "session_id" sid
            (field "cost_usd" (float (pos 6124895493223875) 55) (field "model" (str "haiku") end))))
    total ← item (← h.request "session.stats" (obj end)) "total_cost_usd"
    check
        (← less (← absolute (← lift (h.minus total (float (pos 1) 1))))
          (float (pos 4835703278458517) 82))
        ""
    path ←
        ev h "F282" "cost-match.json"
          (obj (field "total_cost_usd" total (field "recorded" (float (pos 1) 1) end)))
    pure (path, "Dashboard-Summe == echter aufgezeichneter Verbrauch")
