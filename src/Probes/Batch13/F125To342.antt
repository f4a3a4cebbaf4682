-- ===== src/Probes/Batch13/F125To342.antt =====
-- test-harness/probes/batch13.py: the features F125, F127, F122, F129, F211, F342.
use claude_studio.Prelude.{String, []}
use claude_studio.Prelude.Int.{pos}
use claude_studio.Python.Json.{Json, int, str, arr, obj, nil, cons, end, field}
use claude_studio.Python.Values.{value_eq}
use claude_studio.Python.Dynamic.{item, nth, each, len, within, table_of, table_item}
use claude_studio.Python.Stateful.{Stateful, ◌>>=◌, ◌>>◌, pure}
use claude_studio.Probes.Steps.{Harness, Run, check, ev, on_world, record_result}

module _ {W : Type 0} (h : Harness W) where
  -- F125 / F127: A2A message flows and arrives content-correct
  unfoldable pub f125_f127 : Stateful (Run W) (Unit {0})
  f125_f127 = do
    let payload : Json = obj (
        field "result" (str "auth module ready")
          (field "files" (arr (cons (str "auth.ts") nil)) (field "tests" (str "green") end)))
    on_world h (do
      h.request "a2a.send" (
          obj (
            field "from" (str "logic-agent")
              (field "to" (str "planner-agent") (field "message" payload end)))))
    inbox ← on_world h (do
      item (← h.request "a2a.inbox" (obj (field "agent" (str "planner-agent") end))) "messages")
    on_world h (do check (value_eq (← len inbox) (int (pos 1))) "")
    on_world h (do check (value_eq (← item (← nth inbox 0) "from") (str "logic-agent")) "")
    path ← on_world h (ev h "F125" "a2a-flow.json" inbox)
    record_result h "F125" "pass" path "A2A-Nachricht floss Logic->Planner (im Inbox)"
    on_world h (do check (value_eq (← item (← nth inbox 0) "message") payload) "")
    path ← on_world h (ev h "F127" "a2a-content.json" (← item (← nth inbox 0) "message"))
    record_result h "F127" "pass" path "A2A-Nachricht-Inhalt kommt inhaltlich korrekt an"
    on_world h (do
      check
          (value_eq
            (← item (← h.request "a2a.inbox" (obj (field "agent" (str "planner-agent") end)))
              "messages")
            (arr nil))
          "")

  -- F122: orchestrator distributes subtasks to workers
  unfoldable pub f122 : Stateful W (String × String)
  f122 = do
    r ← h.request "teams.decompose" (
        obj (
          field "subtasks"
            (arr (cons (str "design tokens") (cons (str "toggle state") (cons (str "tests") nil))))
            (field "workers"
              (arr (
                cons (str "design-agent") (cons (str "logic-agent") (cons (str "test-agent") nil))))
              end)))
    asg ←
        table_of (λ a. do pure ((← item a "subtask"), (← item a "worker")))
          (← each (← item r "assignments")) []
    check (value_eq (← table_item asg (str "design tokens")) (str "design-agent")) ""
    check (value_eq (← table_item asg (str "tests")) (str "test-agent")) ""
    path ← ev h "F122" "assign.json" r
    pure (path, "Subtasks konkret an Worker verteilt")

  -- F129: team saved as reusable template
  unfoldable pub f129 : Stateful W (String × String)
  f129 = do
    h.request "teams.create" (
        obj (
          field "name" (str "darkmode-team") (
            field "orchestrator" (str "opus-orch") (
              field "workers"
                (arr (
                  cons (str "design-agent")
                    (cons (str "logic-agent") (cons (str "test-agent") nil))))
                end))))
    t ← item (← h.request "teams.get" (obj (field "name" (str "darkmode-team") end))) "team"
    check (value_eq (← item t "orchestrator") (str "opus-orch")) ""
    check (value_eq (← len (← item t "workers")) (int (pos 3))) ""
    path ← ev h "F129" "team.json" t
    pure (path, "Team als wiederverwendbares Template gespeichert")

  -- F211: task workflow {{param}} substitution
  unfoldable pub f211 : Stateful W (String × String)
  f211 = do
    r ← h.request "tasks.render" (
        obj (
          field "workflow" (str "Run {{tool}} against {{target}} with depth {{depth}}") (
            field "params"
              (obj (
                field "tool" (str "security-scan")
                  (field "target" (str "todo-api") (field "depth" (int (pos 3)) end))))
              end)))
    check (value_eq (← item r "rendered") (str "Run security-scan against todo-api with depth 3"))
        ""
    path ← ev h "F211" "render.json" r
    pure (path, "Input-Parameter als {{param}} ersetzt")

  -- F342: DB migration from schema diff
  unfoldable pub f342 : Stateful W (String × String)
  f342 = do
    r ← h.request "migration.generate" (
        obj (
          field "table" (str "users") (
            field "from" (obj (field "id" (str "INTEGER") (field "name" (str "TEXT") end))) (
              field "to"
                (obj (
                  field "id" (str "INTEGER")
                    (field "name" (str "TEXT") (field "email" (str "TEXT") end))))
                end))))
    check (← within "ADD COLUMN email TEXT" (← item r "up")) ""
    check (← within "DROP COLUMN email" (← item r "down")) ""
    path ← ev h "F342" "migration.json" r
    pure (path, "Migration aus Schema-Diff (ADD COLUMN)")
