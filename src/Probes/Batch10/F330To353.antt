-- ===== src/Probes/Batch10/F330To353.antt =====
-- test-harness/probes/batch10.py: the features F330, F331, F352, F353.
use claude_studio.Prelude.{String, true, false, [], ◌∷◌}
use claude_studio.Prelude.Int.{pos}
use claude_studio.Python.Json.{bool, int, float, str, arr, obj, nil, cons, end, field}
use claude_studio.Python.Values.{value_eq, is_true, is_false}
use claude_studio.Python.Dynamic.{item, less, absolute, within}
use claude_studio.Python.Stateful.{Stateful, ◌>>=◌, ◌>>◌, pure, lift}
use claude_studio.Probes.Steps.{Harness, check, ev}
use claude_studio.Probes.Batch10.Helpers.{repo_with}

module _ {W : Type 0} (h : Harness W) where
  -- F330 feature flags
  unfoldable pub f330 : Stateful W (String × String)
  f330 = do
    h.request "flags.set" (obj (field "name" (str "dark_mode") (field "enabled" (bool true) end)))
    on ← item (← h.request "flags.eval" (obj (field "name" (str "dark_mode") end))) "enabled"
    h.request "flags.set" (obj (field "name" (str "dark_mode") (field "enabled" (bool false) end)))
    off ← item (← h.request "flags.eval" (obj (field "name" (str "dark_mode") end))) "enabled"
    check (is_true on) ""
    check (is_false off) ""
    path ← ev h "F330" "flags.json" (obj (field "on" on (field "off" off end)))
    pure (path, "Feature-Flag angelegt/geschaltet, Eval reagiert")

  -- F331 DORA metrics
  unfoldable pub f331 : Stateful W (String × String)
  f331 = do
    repo ←
        repo_with h "dora"
          (("a", "1", "feat: a") ∷ ("b", "2", "fix: bug b") ∷ ("c", "3", "feat: c") ∷ [])
    m ← h.request "metrics.dora" (obj (field "cwd" (str repo) end))
    check (value_eq (← item m "total_commits") (int (pos 3))) ""
    check
        (← less
          (← absolute
            (← lift (h.minus (← item m "change_failure_rate") (float (pos 6004799503160661) 54))))
          (float (pos 4722366482869645) 72))
        ""
    check (← within "deployment_frequency_per_day" m) ""
    check (← within "lead_time_hours" m) ""
    path ← ev h "F331" "dora.json" m
    pure (path, "DORA: Freq/Lead-Time/Change-Failure-Rate aus git berechnet")

  -- F352 standup report
  unfoldable pub f352 : Stateful W (String × String)
  f352 = do
    repo ← repo_with h "standup" (("x", "1", "feat: add x") ∷ ("y", "2", "fix: y") ∷ [])
    r ←
        h.request "report.standup"
          (obj (field "cwd" (str repo) (field "since" (str "1 year ago") end)))
    check (value_eq (← item r "commit_count") (int (pos 2))) ""
    check (← within "add x" (← item r "report")) ""
    path ← ev h "F352" "standup.json" r
    pure (path, "Standup-Report aus Git-Aktivität + Sessions")

  -- F353 context checkpoint save/restore
  unfoldable pub f353 : Stateful W (String × String)
  f353 = do
    h.request "checkpoint.save" (
        obj (
          field "name" (str "before-refactor") (
            field "data"
              (obj
                (field "open_files" (arr (cons (str "a.ts") nil)) (field "note" (str "WIP") end)))
              end)))
    r ←
        item (← h.request "checkpoint.restore" (obj (field "name" (str "before-refactor") end)))
          "checkpoint"
    lst ← item (← h.request "checkpoint.list" (obj end)) "checkpoints"
    check (value_eq (← item (← item r "data") "note") (str "WIP")) ""
    check (← within "before-refactor" lst) ""
    path ← ev h "F353" "checkpoint.json" (obj (field "restored" r (field "list" lst end)))
    pure (path, "Context-Checkpoint benannt gespeichert + wiederhergestellt")
