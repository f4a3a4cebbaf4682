-- ===== src/Probes/LlmBatch18.antt =====
-- test-harness/probes/llm_batch18.py: a plan in plan mode.
use claude_studio.Prelude.{String, true, some, List, [], ◌∷◌}
use claude_studio.Prelude.Int.{pos}
use claude_studio.Python.Json.{Fields, int, str, obj, end, field, truthy}
use claude_studio.Python.Dynamic.{
  concat, item, prefix, stripped, at_least, within_value, check_or, any_of,
}
use claude_studio.Python.Stateful.{Stateful, ◌>>=◌, ◌>>◌, pure}
use claude_studio.Probes.Steps.{Settings, Harness, Run, check, ev, shown, probe_main, lowered}

-- What git gets in its environment.
abbrev environment : Fields
environment = field "GIT_AUTHOR_NAME" (str "B") (
    field "GIT_AUTHOR_EMAIL" (str "b@b")
      (field "GIT_COMMITTER_NAME" (str "B") (field "GIT_COMMITTER_EMAIL" (str "b@b") end)))

module _ {W : Type 0} (h : Harness W) where
  -- The features F138
  unfoldable pub f138 : Stateful W (String × String)
  f138 = do
    proj ← h.mkdtemp "cs-f138-"
    h.write_file (concat (proj ∷ "/index.js" ∷ []))
        "const express = require('express');\nconst app = express();\nconst todos = [{id:1,title:'x'}];\napp.get('/todos', (req,res)=>res.json(todos));\napp.listen(3000);\n"
    r ← h.request "agents.plan_mode" (
        obj (
          field "cwd" (str proj)
            (field "task" (str "Füge einen DELETE-Endpoint /todos/:id zur todo-api hinzu") end)))
    check (truthy (← stripped (← item r "plan"))) "kein Plan erzeugt"
    check_or (← at_least (← item r "step_count") (int (pos 3))) (do
      pure (
          concat (
            "Plan nicht strukturiert genug ("
            ∷ shown h (← item r "step_count")
            ∷ " Schritte)"
            ∷ [])))
    blob ← lowered h (← item r "plan")
    check
        (← any_of (λ k. do within_value k blob)
          ((str "delete") ∷ (str "endpoint") ∷ (str "route") ∷ (str "/todos") ∷ (str "id") ∷ []))
        "Plan nicht aufgabenbezogen"
    path ← ev h "F138" "plan-mode.json" (
        obj (
          field "step_count" (← item r "step_count") (
            field "steps" (← prefix (← item r "steps") 8)
              (field "plan_excerpt" (← prefix (← item r "plan") 500) end))))
    pure (
      path,
      concat (
          "Plan-Mode lieferte strukturierten Plan ("
          ∷ shown h (← item r "step_count")
          ∷ " Schritte, DELETE-Endpoint)"
          ∷ []),
    )

  abbrev pub settings : Settings
  settings = record {
    home = some h.user_home;
    library_dir = some h.root;
    log_path = some "/tmp/llm18.log";
    env_extra =
        field "CLAUDESTUDIO_CLAUDE_BIN" (str (concat (h.user_home ∷ "/.local/bin/claude" ∷ [])))
          end;
    seed_models = true;
  }

  -- The features of `main` in their order.
  abbrev pub claims : List (String × Stateful W (String × String))
  claims = ("F138", f138) ∷ []

  unfoldable pub main : Stateful (Run W) (Unit {0})
  main = probe_main h settings 420 claims
