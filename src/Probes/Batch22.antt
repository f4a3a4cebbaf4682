-- ===== src/Probes/Batch22.antt =====
-- test-harness/probes/batch22.py: events that start agents, and the order of tasks.
use claude_studio.Prelude.{String, true, none, some, List, [], ◌∷◌}
use claude_studio.Prelude.Int.{pos}
use claude_studio.Python.Json.{Json, int, str, arr, obj, nil, cons, end, field}
use claude_studio.Python.Values.{value_eq, any_eq, set_of}
use claude_studio.Python.Dynamic.{
  from_list, size, concat, item, nth, each, at_least, within, hashed, map_of,
}
use claude_studio.Python.Builtins.{tuple_of}
use claude_studio.Python.Stateful.{Stateful, ◌>>=◌, ◌>>◌, pure}
use claude_studio.Probes.Steps.{Settings, Harness, Run, check, ev, probe_main}

module _ {W : Type 0} (h : Harness W) where
  -- F306 event git.push on main -> security-scan agent runs a REAL scan
  unfoldable pub f306 : Stateful W (String × String)
  f306 = do
    h.request "rules.add" (
        obj (
          field "when" (obj (field "event" (str "git.push") (field "branch" (str "main") end)))
            (field "then" (arr (cons (str "start_agent:security-scan") nil)) end)))
    proj ← h.mkdtemp "cs-b22-proj-"
    h.write_file (concat (proj ∷ "/api.ts" ∷ []))
        "const q = `SELECT * FROM u WHERE id=${req.params.id}`\n"
    res ← h.request "events.publish" (
        obj (
          field "type" (str "git.push") (field "branch" (str "main") (field "cwd" (str proj) end))))
    log_reply ← item res "log"
    kinds ← pure (arr (from_list (← map_of (λ e. do item e "kind") (← each log_reply))))
    cids ← pure (set_of (← map_of (λ e. do hashed (← item e "correlation_id")) (← each log_reply)))
    check (value_eq (← nth kinds 0) (str "event")) ""
    check (← within "agent_started" kinds) ""
    check (← within "agent_result" kinds) ""
    check (value_eq (size cids) (int (pos 1))) ""
    check (← at_least (← item (← item res "scan") "count") (int (pos 1))) ""
    nofire ← h.request "events.publish" (
        obj (
          field "type" (str "git.push")
            (field "branch" (str "feature/x") (field "cwd" (str proj) end))))
    check (value_eq (← item nofire "fired") (int (pos 0))) ""
    path ←
        ev h "F306" "event-scan.json"
          (obj (field "on_main" res (field "on_feature_fired" (← item nofire "fired") end)))
    pure (
      path,
      "git.push@main -> security-scan-agent started + echtes Scan-Ergebnis (1 Korrelations-ID)",
    )

  -- F311 dependency DAG: A -> B -> C, B/C blocked until A done
  unfoldable pub f311 : Stateful W (String × String)
  f311 = do
    let tasks : Json = arr (
        cons (obj (field "id" (str "A") end)) (
          cons (obj (field "id" (str "B") (field "deps" (arr (cons (str "A") nil)) end)))
            (cons (obj (field "id" (str "C") (field "deps" (arr (cons (str "B") nil)) end))) nil)))
    dag ← h.request "queue.dag" (obj (field "tasks" tasks end))
    edges ← pure (set_of (← map_of (λ e. do tuple_of e) (← each (← item dag "edges"))))
    check (any_eq (arr (cons (str "A") (cons (str "B") nil))) edges) ""
    check (any_eq (arr (cons (str "B") (cons (str "C") nil))) edges) ""
    check
        (value_eq (← item dag "order") (arr (cons (str "A") (cons (str "B") (cons (str "C") nil)))))
        ""
    check (value_eq (← item (← item dag "blocked") "B") (arr (cons (str "A") nil))) ""
    check (value_eq (← item (← item dag "blocked") "C") (arr (cons (str "B") nil))) ""
    dag2 ←
        h.request "queue.dag"
          (obj (field "tasks" tasks (field "done" (arr (cons (str "A") nil)) end)))
    check (← within "B" (← item dag2 "ready")) ""
    check (← within "C" (← item dag2 "blocked")) ""
    path ← ev h "F311" "dag.json" (obj (field "dag" dag (field "after_A_done" dag2 end)))
    pure (path, "DAG A->B->C, Vorgaenger-Blockierung korrekt (nach A: B ready)")

  -- F312 manual reprioritize: drag a back task to the front -> runs next
  unfoldable pub f312 : Stateful W (String × String)
  f312 = do
    r ← h.request "queue.reorder" (
        obj (
          field "queue"
            (arr (cons (str "t1") (cons (str "t2") (cons (str "t3") (cons (str "t4") nil)))))
            (field "move" (str "t4") (field "to" (int (pos 0)) end))))
    check
        (value_eq (← item r "order")
          (arr (cons (str "t4") (cons (str "t1") (cons (str "t2") (cons (str "t3") nil))))))
        ""
    check (value_eq (← item r "next") (str "t4")) ""
    path ← ev h "F312" "reorder.json" r
    pure (path, "per Reorder nach vorne gezogener Task läuft als nächster")

  abbrev pub settings : Settings
  settings = record {
    home = none;
    library_dir = some h.root;
    log_path = some "/tmp/b22.log";
    env_extra = end;
    seed_models = true;
  }

  -- The features of `main` in their order.
  abbrev pub claims : List (String × Stateful W (String × String))
  claims = ("F306", f306) ∷ ("F311", f311) ∷ ("F312", f312) ∷ []

  unfoldable pub main : Stateful (Run W) (Unit {0})
  main = probe_main h settings 15 claims
