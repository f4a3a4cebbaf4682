-- ===== src/Probes/Batch5.antt =====
-- test-harness/probes/batch5.py: rules, routing, queue, monitors and the supervisor.
use claude_studio.Prelude.{String, true, none, some, List, [], ◌∷◌}
use claude_studio.Prelude.Int.{pos}
use claude_studio.Python.Json.{int, float, str, arr, obj, nil, cons, end, field}
use claude_studio.Python.Values.{value_eq, is_true, is_false}
use claude_studio.Python.Dynamic.{
  from_list, concat, item, each, within, check_or, any_of, map_of, table_of, table_item,
}
use claude_studio.Python.Stateful.{Stateful, ◌>>=◌, ◌>>◌, pure}
use claude_studio.Probes.Steps.{Settings, Harness, Run, check, ev, shown, probe_main, table_json}

module _ {W : Type 0} (h : Harness W) where
  -- F308: visual WENN-DANN rule engine
  unfoldable pub f308 : Stateful W (String × String)
  f308 = do
    h.request "rules.add" (
        obj (
          field "when" (obj (field "event" (str "git.push") (field "branch" (str "main") end))) (
            field "then"
              (arr (cons (str "start_agent:security-scan") (cons (str "notify:slack") nil))) end)))
    h.request "rules.add" (
        obj (
          field "when" (obj (field "event" (str "test.failed") end))
            (field "then" (arr (cons (str "start_agent:fix-agent") nil)) end)))
    fired ←
        item
          (← h.request "rules.eval"
            (obj (field "event" (str "git.push") (field "branch" (str "main") end))))
          "fired"
    none_reply ←
        item
          (← h.request "rules.eval"
            (obj (field "event" (str "git.push") (field "branch" (str "feature/x") end))))
          "fired"
    check
        (← any_of (λ f. do within "security-scan" (str (shown h (← item f "actions"))))
          (← each fired))
        ""
    check (value_eq none_reply (arr nil)) ""
    path ←
        ev h "F308" "rules.json"
          (obj (field "fired_on_main" fired (field "feature_branch" none_reply end)))
    pure (path, "WENN git.push UND branch==main DANN ... feuert korrekt")

  -- F304: routing to the matching agent
  unfoldable pub f304 : Stateful W (String × String)
  f304 = do
    routes ←
        table_of
          (λ t. do
            pure
                (t, (← item (← h.request "routing.route" (obj (field "task_type" t end))) "agent")))
          ((str "write tests")
            ∷ (str "security scan")
            ∷ (str "fix the bug")
            ∷ (str "update docs")
            ∷ [])
          []
    check (value_eq (← table_item routes (str "write tests")) (str "test-agent")) ""
    check (value_eq (← table_item routes (str "security scan")) (str "security-scan")) ""
    check (value_eq (← table_item routes (str "fix the bug")) (str "fix-agent")) ""
    path ← ev h "F304" "routing.json" (table_json h routes)
    pure (path, "Task -> passender Agent geroutet")

  -- F309: priority queue ordering
  unfoldable pub f309 : Stateful W (String × String)
  f309 = do
    r ← h.request "queue.order" (
        obj (
          field "tasks"
            (arr (
              cons (obj (field "id" (str "a") (field "priority" (str "normal") end))) (
                cons (obj (field "id" (str "b") (field "priority" (str "critical") end))) (
                  cons (obj (field "id" (str "c") (field "priority" (str "background") end)))
                    (cons (obj (field "id" (str "d") (field "priority" (str "high") end))) nil)))))
            end))
    order ← pure (arr (from_list (← map_of (λ x. do pure (x)) (← each (← item r "order")))))
    check_or
        (value_eq order
          (arr (cons (str "b") (cons (str "d") (cons (str "a") (cons (str "c") nil))))))
        (do pure (concat ("order=" ∷ shown h order ∷ [])))
    path ← ev h "F309" "queue.json" r
    pure (path, "Critical>High>Normal>Background")

  -- F310: resource limit enforced
  unfoldable pub f310 : Stateful W (String × String)
  f310 = do
    ok_reply ←
        h.request "scheduler.admit"
          (obj (field "running" (int (pos 3)) (field "max_parallel" (int (pos 4)) end)))
    full ←
        h.request "scheduler.admit"
          (obj (field "running" (int (pos 4)) (field "max_parallel" (int (pos 4)) end)))
    check (is_true (← item ok_reply "admit")) ""
    check (is_false (← item full "admit")) ""
    path ←
        ev h "F310" "admit.json" (obj (field "slot_free" ok_reply (field "limit_reached" full end)))
    pure (path, "max-parallel hart erzwungen")

  -- F313: health monitor pings real endpoints (Qdrant up vs dead port)
  unfoldable pub f313 : Stateful W (String × String)
  f313 = do
    up ←
        h.request "monitor.health_check"
          (obj (field "url" (str "http://localhost:6333/healthz") end))
    down ←
        h.request "monitor.health_check" (obj (field "url" (str "http://localhost:6399/nope") end))
    check (value_eq (← item up "status_code") (int (pos 200))) ""
    check (is_false (← item up "alert")) ""
    check (is_true (← item down "alert")) ""
    path ← ev h "F313" "health.json" (obj (field "up" up (field "down" down end)))
    pure (path, "echtes HTTP: 200 ok, toter Port -> Alert")

  -- F314: cost guard warn at 80%, stop at 100%
  unfoldable pub f314 : Stateful W (String × String)
  f314 = do
    ok_reply ←
        h.request "monitor.cost_guard"
          (obj (field "spent" (float (pos 5) 0) (field "budget" (float (pos 20) 0) end)))
    warn ←
        h.request "monitor.cost_guard"
          (obj (field "spent" (float (pos 33) 1) (field "budget" (float (pos 20) 0) end)))
    stop_reply ←
        h.request "monitor.cost_guard"
          (obj (field "spent" (float (pos 21) 0) (field "budget" (float (pos 20) 0) end)))
    check (value_eq (← item ok_reply "status") (str "ok")) ""
    check (value_eq (← item warn "status") (str "warn")) ""
    check (value_eq (← item stop_reply "status") (str "stop")) ""
    path ←
        ev h "F314" "cost.json"
          (obj (field "ok" ok_reply (field "warn" warn (field "stop" stop_reply end))))
    pure (path, "Cost-Guard: 80%->warn, 100%->stop")

  -- F301: supervisor restarts an idle (no-output) agent
  unfoldable pub f301 : Stateful W (String × String)
  f301 = do
    r ← h.request "supervisor.evaluate" (
        obj (
          field "last_output_ms" (int (pos 0)) (
            field "now_ms" (int (pos 1000000)) (field "idle_threshold_ms" (int (pos 900000)) end))))
    healthy ← h.request "supervisor.evaluate" (
        obj (
          field "last_output_ms" (int (pos 0))
            (field "now_ms" (int (pos 10000)) (field "idle_threshold_ms" (int (pos 900000)) end))))
    check (value_eq (← item r "action") (str "restart")) ""
    check (value_eq (← item healthy "action") (str "ok")) ""
    path ← ev h "F301" "idle.json" (obj (field "idle" r (field "healthy" healthy end)))
    pure (path, "kein Output > Schwellwert -> restart (Logik; Dauerschleife=Runtime)")

  -- F302: supervisor pauses an agent over its token budget
  unfoldable pub f302 : Stateful W (String × String)
  f302 = do
    r ←
        h.request "supervisor.evaluate"
          (obj (field "tokens_used" (int (pos 12000)) (field "token_budget" (int (pos 10000)) end)))
    check (value_eq (← item r "action") (str "pause")) ""
    path ← ev h "F302" "budget.json" r
    pure (path, "Token-Budget überschritten -> pause")

  -- F303: supervisor escalates an error loop (> 3 repeats)
  unfoldable pub f303 : Stateful W (String × String)
  f303 = do
    r ← h.request "supervisor.evaluate" (obj (field "error_repeats" (int (pos 4)) end))
    ok_reply ← h.request "supervisor.evaluate" (obj (field "error_repeats" (int (pos 2)) end))
    check (value_eq (← item r "action") (str "escalate")) ""
    check (value_eq (← item ok_reply "action") (str "ok")) ""
    path ← ev h "F303" "errorloop.json" (obj (field "loop" r (field "ok" ok_reply end)))
    pure (path, "gleicher Fehler > 3x -> Eskalation")

  abbrev pub settings : Settings
  settings = record {
    home = none;
    library_dir = some h.root;
    log_path = some "/tmp/b5.log";
    env_extra = end;
    seed_models = true;
  }

  -- The features of `main` in their order.
  abbrev pub claims : List (String × Stateful W (String × String))
  claims =
      ("F308", f308)
      ∷ ("F304", f304)
      ∷ ("F309", f309)
      ∷ ("F310", f310)
      ∷ ("F313", f313)
      ∷ ("F314", f314)
      ∷ ("F301", f301)
      ∷ ("F302", f302)
      ∷ ("F303", f303)
      ∷ []

  unfoldable pub main : Stateful (Run W) (Unit {0})
  main = probe_main h settings 15 claims
