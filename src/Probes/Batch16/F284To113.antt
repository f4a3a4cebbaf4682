-- ===== src/Probes/Batch16/F284To113.antt =====
-- test-harness/probes/batch16.py: the features F284, F270, F345, F067, F100, F111, F112, F113.
use claude_studio.Prelude.{String, true, not, [], ◌∷◌}
use claude_studio.Prelude.Int.{pos}
use claude_studio.Python.Json.{bool, int, str, arr, obj, nil, cons, end, field}
use claude_studio.Python.Values.{value_eq, is_true}
use claude_studio.Python.Dynamic.{concat, item, prefix, each, at_least, within, next_of}
use claude_studio.Python.Stateful.{Stateful, ◌>>=◌, ◌>>◌, pure}
use claude_studio.Probes.Steps.{Harness, Run, check, ev, on_world, record_result}
use claude_studio.Probes.Batch16.Helpers.{git}

module _ {W : Type 0} (h : Harness W) where
  -- F284 productivity metrics
  unfoldable pub f284 : Stateful W (String × String)
  f284 = do
    repo ← h.mkdtemp "cs-b16-repo-"
    git h repo ("init" ∷ "-q" ∷ "-b" ∷ "main" ∷ [])
    h.write_file (concat (repo ∷ "/a.txt" ∷ [])) "one\ntwo\nthree\n"
    git h repo ("add" ∷ "-A" ∷ [])
    git h repo ("commit" ∷ "-qm" ∷ "feat: a" ∷ [])
    h.write_file (concat (repo ∷ "/b.txt" ∷ [])) "x\n"
    git h repo ("add" ∷ "-A" ∷ [])
    git h repo ("commit" ∷ "-qm" ∷ "feat: b" ∷ [])
    r ← h.request "metrics.productivity" (obj (field "cwd" (str repo) end))
    check (value_eq (← item r "commits") (int (pos 2))) ""
    check (← at_least (← item r "lines_added") (int (pos 4))) ""
    path ← ev h "F284" "productivity.json" r
    pure (path, "Commits/LoC/Sessions-Metriken")

  -- F270 pipeline generator
  unfoldable pub f270 : Stateful W (String × String)
  f270 = do
    r ← h.request "pipeline.generate" (obj (field "stack" (str "rust") end))
    check (← within "cargo test" (← item r "workflow")) ""
    check (← within "name: CI" (← item r "workflow")) ""
    path ← ev h "F270" "pipeline.yml" (← item r "workflow")
    pure (path, "GitHub-Actions-Workflow generiert")

  -- F345 extended-thinking setting
  unfoldable pub f345 : Stateful W (String × String)
  f345 = do
    h.request "settings.set"
        (obj (field "key" (str "extended_thinking") (field "value" (bool true) end)))
    v ← item (← h.request "settings.get" (obj (field "key" (str "extended_thinking") end))) "value"
    check (is_true v) ""
    path ← ev h "F345" "extended.json" (obj (field "value" v end))
    pure (path, "Extended-Thinking-Modus konfigurierbar")

  -- F067 worktree CLAUDE.md overrides
  unfoldable pub f067 : Stateful W (String × String)
  f067 = do
    wt ← h.mkdtemp "cs-b16-wt-"
    h.write_file (concat (wt ∷ "/CLAUDE.md" ∷ [])) "WORKTREE-OVERRIDE-MARK-555"
    a ←
        h.request "context.assemble"
          (obj (field "cwd" (str (h.root)) (field "worktree" (str wt) end)))
    wl ←
        next_of (λ l. do pure (value_eq (← item l "layer") (str "worktree_override")))
          (← each (← item a "layers"))
    check (← within "WORKTREE-OVERRIDE-MARK-555" (← item wl "content")) ""
    check (← within "WORKTREE-OVERRIDE-MARK-555" (← item a "assembled_text")) ""
    path ← ev h "F067" "worktree-override.json" wl
    pure (path, "Worktree-CLAUDE.md im Kontext geladen")

  -- F100 / F111 / F112 / F113 agent config
  unfoldable pub f100_f111_f112_f113 : Stateful (Run W) (Unit {0})
  f100_f111_f112_f113 = do
    a1 ← on_world h (do
      item
          (← h.request "agents.create" (
            obj (
              field "name" (str "A1") (
                field "trigger" (str "scheduled") (
                  field "token_budget" (int (pos 1000))
                    (field "definitions" (arr (cons (str "Error Handling Standard") nil)) end))))))
          "id")
    a2 ← on_world h (do
      item
          (← h.request "agents.create" (
            obj (
              field "name" (str "A2")
                (field "definitions" (arr (cons (str "Video Frame Loading") nil)) end))))
          "id")
    on_world h (do
      check
          (value_eq
            (← item (← item (← h.request "agents.get" (obj (field "id" a1 end))) "agent") "trigger")
            (str "scheduled"))
          "")
    path ← on_world h (ev h "F112" "trigger.json" (obj (field "trigger" (str "scheduled") end)))
    record_result h "F112" "pass" path "Trigger-Typ pro Agent konfiguriert"
    ctx1 ← on_world h (do h.request "agents.context" (obj (field "id" a1 end)))
    on_world h (do check (← within "Error Handling Standard" (← item ctx1 "active_definitions")) "")
    path ← on_world h (ev h "F100" "assign.json" ctx1)
    record_result h "F100" "pass" path "Definition dauerhaft Agent zugewiesen + geladen"
    ctx2 ← on_world h (do h.request "agents.context" (obj (field "id" a2 end)))
    on_world h (do
      check (not (value_eq (← item ctx1 "active_definitions") (← item ctx2 "active_definitions")))
          "")
    path ← on_world h (
        ev h "F111" "fork.json" (
          obj (
            field "a1_excerpt" (← prefix (← item ctx1 "active_definitions") 60)
              (field "a2_excerpt" (← prefix (← item ctx2 "active_definitions") 60) end))))
    record_result h "F111" "pass" path "Context-Fork: eigener Kontext je Agent"
    ev113 ← on_world h (do
      h.request "supervisor.evaluate"
          (obj (field "tokens_used" (int (pos 2000)) (field "token_budget" (int (pos 1000)) end))))
    on_world h (do check (value_eq (← item ev113 "action") (str "pause")) "")
    path ← on_world h (ev h "F113" "budget.json" ev113)
    record_result h "F113" "pass" path "Token-Budget-Überschreitung -> Agent pausiert"
