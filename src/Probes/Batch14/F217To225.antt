-- ===== src/Probes/Batch14/F217To225.antt =====
-- test-harness/probes/batch14.py: the features F217, F218, F220, F221, F222, F223, F224, F225.
use claude_studio.Prelude.{String, true, not}
use claude_studio.Prelude.Int.{pos}
use claude_studio.Python.Json.{bool, int, str, arr, obj, end, field}
use claude_studio.Python.Values.{value_eq, is_true, is_none}
use claude_studio.Python.Dynamic.{
  from_list, item, nth, each, len, greater, at_least, within, join, all_of, next_of, select_of,
  map_of,
}
use claude_studio.Python.Stateful.{Stateful, ◌>>=◌, ◌>>◌, pure}
use claude_studio.Probes.Steps.{Harness, Run, check, ev, on_world, record_result}

module _ {W : Type 0} (h : Harness W) where
  -- --- Co-Pilot --- F217/F218/F220 suggestions from state with priority + why
  unfoldable pub f217_f218_f220 : Stateful (Run W) (Unit {0})
  f217_f218_f220 = do
    r ← on_world h (do
      h.request "copilot.suggestions" (
          obj (
            field "state"
              (obj (field "open_findings" (int (pos 2)) (field "failing_tests" (int (pos 1)) end)))
              end)))
    reds ← on_world h (do
      pure (
          arr (
            from_list
              (← select_of (λ s. do pure (value_eq (← item s "priority") (str "red")))
                (λ s. do pure (s)) (← each (← item r "suggestions"))))))
    on_world h (do check (← at_least (← len reds) (int (pos 2))) "")
    on_world h (do check (← all_of (λ s. do within "why" s) (← each reds)) "")
    on_world h (do
      check (value_eq (← item (← item (← nth reds 0) "why") "open_findings") (int (pos 2))) "")
    path ← on_world h (ev h "F217" "suggestions.json" r)
    record_result h "F217" "pass" path "Vorschläge aus echtem State"
    path ← on_world h (
        ev h "F218" "priority.json" (
          arr (from_list (← map_of (λ s. do item s "priority") (← each (← item r "suggestions"))))))
    record_result h "F218" "pass" path "Priorität rot/gelb/grün/blau"
    path ← on_world h (ev h "F220" "why.json" (← item (← nth reds 0) "why"))
    record_result h "F220" "pass" path "'Warum?' zeigt zugrundeliegende Daten"

  -- F221 focus: exactly one recommendation
  unfoldable pub f221 : Stateful W (String × String)
  f221 = do
    r ← h.request "copilot.focus" (
        obj (
          field "state"
            (obj
              (field "open_findings" (int (pos 2)) (field "last_backup_days" (int (pos 30)) end)))
            end))
    check (not (is_none (← item r "focus"))) ""
    check (value_eq (← item (← item r "focus") "priority") (str "red")) ""
    path ← ev h "F221" "focus.json" r
    pure (path, "Fokus-Vorschlag gibt genau EINE Empfehlung")

  -- F222 neglected (backup/deps)
  unfoldable pub f222 : Stateful W (String × String)
  f222 = do
    r ← h.request "copilot.suggestions" (
        obj (
          field "state"
            (obj
              (field "last_backup_days" (int (pos 12)) (field "outdated_deps" (int (pos 5)) end)))
            end))
    titles ← join " " (← map_of (λ s. do item s "title") (← each (← item r "suggestions")))
    check (← within "Backup" titles) ""
    check (← within "veraltete" titles) ""
    path ← ev h "F222" "neglected.json" r
    pure (path, "Vernachlässigtes erkannt (Backup/Deps)")

  -- F223 cost inefficiency with savings figure
  unfoldable pub f223 : Stateful W (String × String)
  f223 = do
    r ← h.request "copilot.suggestions" (
        obj (
          field "state"
            (obj (
              field "agent_opus_for_simple" (bool true) (
                field "agent_input_tokens" (int (pos 200000))
                  (field "agent_output_tokens" (int (pos 40000)) end))))
            end))
    opt ←
        next_of (λ s. do pure (value_eq (← item s "action") (str "downgrade_model")))
          (← each (← item r "suggestions"))
    check (← greater (← item (← item opt "why") "savings_usd_per_run") (int (pos 0))) ""
    path ← ev h "F223" "cost.json" opt
    pure (path, "Kosten-Ineffizienz erkannt + Einsparung beziffert")

  -- F224 freed dependency
  unfoldable pub f224 : Stateful W (String × String)
  f224 = do
    r ← h.request "copilot.suggestions" (
        obj (
          field "state"
            (obj
              (field "dependency_freed" (bool true) (field "freed_feature" (str "Dark Mode") end)))
            end))
    freed ←
        next_of (λ s. do pure (value_eq (← item s "action") (str "start_feature")))
          (← each (← item r "suggestions"))
    check (← within "Dark Mode" (← item freed "title")) ""
    path ← ev h "F224" "freed.json" freed
    pure (path, "freigewordene Abhängigkeit erkannt")

  -- F225 configurable
  unfoldable pub f225 : Stateful W (String × String)
  f225 = do
    h.request "copilot.config_set"
        (obj (field "proactivity" (str "still") (field "weekend_mode" (bool true) end)))
    cfg ← item (← h.request "copilot.config_get" (obj end)) "config"
    check (value_eq (← item cfg "proactivity") (str "still")) ""
    check (is_true (← item cfg "weekend_mode")) ""
    path ← ev h "F225" "config.json" cfg
    pure (path, "Co-Pilot konfigurierbar (Proaktivität/Weekend)")
