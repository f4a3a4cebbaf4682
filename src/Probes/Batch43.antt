-- ===== src/Probes/Batch43.antt =====
-- test-harness/probes/batch43.py: tasks of six sections.
use claude_studio.Prelude.{String, true, none, some, List, [], ◌∷◌}
use claude_studio.Python.Json.{Json, bool, str, arr, obj, nil, cons, end, field, truthy}
use claude_studio.Python.Values.{value_eq, set_of, same_set}
use claude_studio.Python.Dynamic.{
  from_list, concat, item, each, within_value, hashed, check_or, any_of, map_of, each_do,
}
use claude_studio.Python.Builtins.{refused, path_of}
use claude_studio.Python.Stateful.{Stateful, ◌>>=◌, ◌>>◌, pure, lift}
use claude_studio.Probes.Steps.{Settings, Harness, Run, check, ev, shown, probe_main}

module _ {W : Type 0} (h : Harness W) where
  -- The features F210
  unfoldable pub f210 : Stateful W (String × String)
  f210 = do
    let task : Json = obj (
        field "name" (str "Mein Rechnungs-Audit") (
          field "description" (str "Prüft Rechnungen auf Pflichtangaben") (
            field "icon" (str "wand.and.stars") (
              field "agent"
                (obj (
                  field "model" (str "claude-sonnet-4-6")
                    (field "allowed_tools" (arr (cons (str "Read") (cons (str "Grep") nil))) end)))
                (field "inputs"
                  (arr (
                    cons
                      (obj (
                        field "key" (str "pfad") (
                          field "label" (str "Projektpfad")
                            (field "type" (str "text") (field "required" (bool true) end)))))
                      nil))
                  (field "workflow"
                    (obj (
                      field "steps"
                        (arr (
                          cons
                            (obj
                              (field "prompt" (str "Analysiere {{pfad}} auf Pflichtangaben") end))
                            nil))
                        end))
                    (field "output"
                      (obj
                        (field "format" (str "markdown") (field "destination" (str "report") end)))
                      (field "schedule" (obj (field "type" (str "manual") end)) end))))))))
    r ← h.request "tasks.save" (obj (field "task" task end))
    check (truthy (← item r "ok")) ""
    check (value_eq (← item r "id") (str "mein-rechnungs-audit")) ""
    check
        (same_set (set_of (← map_of hashed (← each (← item r "sections")))) (
          (str "name")
          ∷ (str "agent")
          ∷ (str "inputs")
          ∷ (str "workflow")
          ∷ (str "output")
          ∷ (str "schedule")
          ∷ []))
        ""
    tasks ← item (← h.request "tasks.list" (obj end)) "tasks"
    check_or
        (← any_of (λ t. do pure (value_eq (← item t "name") (str "Mein Rechnungs-Audit")))
          (← each tasks))
        (do pure (shown h (arr (from_list (← map_of (λ t. do item t "name") (← each tasks))))))
    saved ← lift (h.loads (str (← h.read_file (← lift (path_of (← item r "path"))))))
    each_do
        (λ sec. do
          check_or (← within_value sec saved)
              (do pure (concat ("Sektion fehlt in Datei: " ∷ shown h sec ∷ []))))
        ((str "name")
          ∷ (str "agent")
          ∷ (str "inputs")
          ∷ (str "workflow")
          ∷ (str "output")
          ∷ (str "schedule")
          ∷ [])
    check (value_eq (← item (← item saved "agent") "model") (str "claude-sonnet-4-6")) ""
    rejected ← refused (do
      h.request "tasks.save" (
          obj (
            field "task"
              (obj (
                field "name" (str "Unvollständig") (
                  field "agent" (obj end) (
                    field "inputs" (arr nil)
                      (field "workflow" (obj end) (field "output" (obj end) end))))))
              end)))
    check rejected ""
    path ← ev h "F210" "task-builder-save.json" (
        obj (
          field "saved_id" (← item r "id") (
            field "sections" (← item r "sections")
              (field "in_list" (bool true) (field "incomplete_rejected" (bool rejected) end)))))
    pure (path, "6-Sektionen-Task gespeichert + in Liste; unvollständiger Task abgelehnt")

  abbrev pub settings : Settings
  settings = record {
    home = none;
    library_dir = some h.root;
    log_path = some "/tmp/b43.log";
    env_extra = end;
    seed_models = true;
  }

  -- The features of `main` in their order.
  abbrev pub claims : List (String × Stateful W (String × String))
  claims = ("F210", f210) ∷ []

  unfoldable pub main : Stateful (Run W) (Unit {0})
  main = probe_main h settings 15 claims
