-- ===== src/Probes/Batch8/F247To158.antt =====
-- test-harness/probes/batch8.py: the features F247, F158.
use claude_studio.Prelude.{String}
use claude_studio.Prelude.Int.{pos}
use claude_studio.Python.Json.{bool, int, str, arr, obj, nil, cons, end, field}
use claude_studio.Python.Values.{value_eq}
use claude_studio.Python.Dynamic.{item, nth, len, at_least}
use claude_studio.Python.Stateful.{Stateful, ◌>>=◌, ◌>>◌, pure}
use claude_studio.Probes.Steps.{Harness, check, ev}

module _ {W : Type 0} (h : Harness W) where
  -- F247: conditional branch (contains X -> A else B)
  unfoldable pub f247 : Stateful W (String × String)
  f247 = do
    yes_reply ← h.request "prompts.chain_run" (
        obj (
          field "input" (str "this has ERROR inside") (
            field "steps"
              (arr (
                cons
                  (obj (
                    field "op" (str "branch") (
                      field "contains" (str "ERROR") (
                        field "then"
                          (arr (
                            cons
                              (obj
                                (field "op" (str "set") (field "arg" (str "ran fix branch") end)))
                              nil))
                          (field "else"
                            (arr (
                              cons
                                (obj
                                  (field "op" (str "set") (field "arg" (str "ran ok branch") end)))
                                nil))
                            end)))))
                  nil))
              end)))
    no_reply ← h.request "prompts.chain_run" (
        obj (
          field "input" (str "all good") (
            field "steps"
              (arr (
                cons
                  (obj (
                    field "op" (str "branch") (
                      field "contains" (str "ERROR") (
                        field "then"
                          (arr (
                            cons
                              (obj
                                (field "op" (str "set") (field "arg" (str "ran fix branch") end)))
                              nil))
                          (field "else"
                            (arr (
                              cons
                                (obj
                                  (field "op" (str "set") (field "arg" (str "ran ok branch") end)))
                                nil))
                            end)))))
                  nil))
              end)))
    check (value_eq (← item yes_reply "output") (str "ran fix branch")) ""
    check (value_eq (← item no_reply "output") (str "ran ok branch")) ""
    path ←
        ev h "F247" "branch.json" (obj (field "with_error" yes_reply (field "clean" no_reply end)))
    pure (path, "Bedingte Verzweigung: enthält Output X -> A, sonst B")

  -- F158: archive filter by project (cwd) and timeframe
  unfoldable pub f158 : Stateful W (String × String)
  f158 = do
    sa ←
        item
          (← h.request "session.create"
            (obj (field "title" (str "A") (field "cwd" (str "/proj/alpha") end))))
          "id"
    h.request "session.create" (obj (field "title" (str "B") (field "cwd" (str "/proj/beta") end)))
    only_alpha ←
        item (← h.request "session.list" (obj (field "project" (str "/proj/alpha") end))) "sessions"
    future ←
        item (← h.request "session.list" (obj (field "since" (int (pos 99999999999999)) end)))
          "sessions"
    all_since0 ←
        item (← h.request "session.list" (obj (field "since" (int (pos 0)) end))) "sessions"
    check (value_eq (← len only_alpha) (int (pos 1))) ""
    check (value_eq (← item (← nth only_alpha 0) "id") sa) ""
    check (value_eq future (arr nil)) ""
    check (← at_least (← len all_since0) (int (pos 2))) ""
    path ← ev h "F158" "filter.json" (
        obj (
          field "project_alpha" only_alpha (
            field "future_empty" (bool (value_eq future (arr nil)))
              (field "since0_count" (← len all_since0) end))))
    pure (path, "Archiv-Filter nach Projekt + Zeitraum (Modell/Kosten/Tools verfügbar)")
