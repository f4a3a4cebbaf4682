-- ===== src/Probes/Batch19.antt =====
-- test-harness/probes/batch19.py: events of sessions, errors, outputs and work time.
use claude_studio.Prelude.{String, true, none, some, List, [], ◌∷◌}
use claude_studio.Prelude.Int.{pos}
use claude_studio.Python.Json.{int, str, arr, obj, nil, cons, end, field, truthy}
use claude_studio.Python.Values.{value_eq, set_of, is_subset}
use claude_studio.Python.Dynamic.{
  from_list, concat, item, get_item, get_item_or, each, len, greater, within, both, hashed, all_of,
  next_of, map_of, each_do,
}
use claude_studio.Python.Builtins.{sorted_values}
use claude_studio.Python.Stateful.{Stateful, ◌>>=◌, ◌>>◌, pure}
use claude_studio.Probes.Steps.{Settings, Harness, Run, check, ev, probe_main}

module _ {W : Type 0} (h : Harness W) where
  -- F155 permission/hook/mcp events stored with timestamp
  unfoldable pub f155 : Stateful W (String × String)
  f155 = do
    sid ←
        item
          (← h.request "session.create"
            (obj (field "title" (str "evented") (field "cwd" (str (h.root)) end))))
          "id"
    h.request "session.record_event" (
        obj (
          field "session_id" sid (
            field "kind" (str "permission") (
              field "payload" (obj (field "tool" (str "Bash") (field "decision" (str "ask") end)))
                end))))
    h.request "session.record_event" (
        obj (
          field "session_id" sid (
            field "kind" (str "hook") (
              field "payload"
                (obj (field "event" (str "PostToolUse") (field "matcher" (str "Edit") end))) end))))
    h.request "session.record_event" (
        obj (
          field "session_id" sid (
            field "kind" (str "mcp") (
              field "payload"
                (obj (field "server" (str "github") (field "tool" (str "create_issue") end)))
                end))))
    events ← item (← h.request "session.events" (obj (field "session_id" sid end))) "events"
    kinds ← pure (set_of (← map_of (λ e. do hashed (← item e "kind")) (← each events)))
    check (is_subset ((str "permission") ∷ (str "hook") ∷ (str "mcp") ∷ []) kinds) ""
    check
        (← all_of (λ e. do greater (← get_item_or e "created_at" (int (pos 0))) (int (pos 0)))
          (← each events))
        ""
    path ← ev h "F155" "events.json" events
    pure (path, "permission/hook/mcp-Events mit Zeitstempel gespeichert")

  -- F156 error + numbered retries with exit-code
  unfoldable pub f156 : Stateful W (String × String)
  f156 = do
    sid ←
        item
          (← h.request "session.create"
            (obj (field "title" (str "errs") (field "cwd" (str (h.root)) end))))
          "id"
    each_do
        (λ n. do
          h.request "session.record_error" (
              obj (
                field "session_id" sid (
                  field "error" (str "cat: nichtvorhanden.txt: No such file")
                    (field "exit_code" (int (pos 1)) (field "retry" n end)))))
          pure tt)
        ((int (pos 0)) ∷ (int (pos 1)) ∷ (int (pos 2)) ∷ [])
    errs ←
        item
          (← h.request "session.events"
            (obj (field "session_id" sid (field "kind" (str "error") end))))
          "events"
    retries ← pure (
        arr (
          from_list
            (← sorted_values (← map_of (λ e. do item (← item e "payload") "retry") (← each errs)))))
    check (value_eq (← len errs) (int (pos 3))) ""
    check
        (value_eq retries (arr (cons (int (pos 0)) (cons (int (pos 1)) (cons (int (pos 2)) nil)))))
        ""
    check
        (← all_of
          (λ e. do
            both (do pure (value_eq (← item (← item e "payload") "exit_code") (int (pos 1))))
                (do within "No such file" (← item (← item e "payload") "error")))
          (← each errs))
        ""
    path ← ev h "F156" "errors.json" errs
    pure (path, "Fehler+exit-code + nummerierte Retries gespeichert")

  -- F212 output type: Datei creates a file, Report returns a report
  unfoldable pub f212 : Stateful W (String × String)
  f212 = do
    out ← pure (concat ((← h.mkdtemp "cs-b19-out-") ∷ "/report.md" ∷ []))
    f ← h.request "tasks.deliver_output" (
        obj (
          field "type" (str "Datei")
            (field "path" (str out) (field "content" (str "scan results: 0 issues") end))))
    check (value_eq (← item f "result") (str "file")) ""
    check (← h.file_exists out) ""
    check (← within "scan results" (str (← h.read_file out))) ""
    r ←
        h.request "tasks.deliver_output"
          (obj (field "type" (str "Report") (field "content" (str "scan results: 0 issues") end)))
    check (value_eq (← item r "result") (str "report")) ""
    check (← within "Task-Report" (← item r "report")) ""
    path ← ev h "F212" "output.json" (obj (field "file" f (field "report" r end)))
    pure (path, "Output-Typ Datei->Datei, Report->Report")

  -- F356 worktime tracking -> Toggl export
  unfoldable pub f356 : Stateful W (String × String)
  f356 = do
    sid ←
        item
          (← h.request "session.create"
            (obj (field "title" (str "tracked work") (field "cwd" (str (h.root)) end))))
          "id"
    h.request "session.record_event" (
        obj (field "session_id" sid (field "kind" (str "stopped") (field "payload" (obj end) end))))
    r ← h.request "worktime.export" (obj end)
    check (value_eq (← item r "format") (str "toggl")) ""
    check (truthy (← item r "entries")) ""
    entry ←
        next_of (λ e. do pure (value_eq (← get_item e "description") (str "tracked work")))
          (← each (← item r "entries"))
    check (← within "start_ms" entry) ""
    check (← within "stop_ms" entry) ""
    check (← within "duration_seconds" entry) ""
    path ←
        ev h "F356" "worktime.json"
          (obj (field "sample" entry (field "total_seconds" (← item r "total_seconds") end)))
    pure (path, "aktive Session-Zeit als Toggl-kompatible Einträge exportiert")

  abbrev pub settings : Settings
  settings = record {
    home = none;
    library_dir = some h.root;
    log_path = some "/tmp/b19.log";
    env_extra = end;
    seed_models = true;
  }

  -- The features of `main` in their order.
  abbrev pub claims : List (String × Stateful W (String × String))
  claims = ("F155", f155) ∷ ("F156", f156) ∷ ("F212", f212) ∷ ("F356", f356) ∷ []

  unfoldable pub main : Stateful (Run W) (Unit {0})
  main = probe_main h settings 15 claims
