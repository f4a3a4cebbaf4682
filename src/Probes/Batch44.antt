-- ===== src/Probes/Batch44.antt =====
-- test-harness/probes/batch44.py: answers of several models side by side.
use claude_studio.Prelude.{String, true, not, none, some, List, [], ◌∷◌}
use claude_studio.Prelude.Int.{pos}
use claude_studio.Python.Json.{int, str, arr, obj, nil, cons, end, field}
use claude_studio.Python.Values.{value_eq, same_set}
use claude_studio.Python.Dynamic.{
  from_list, concat, item, each, stripped, len, greater, within, check_or, map_of, table_of,
}
use claude_studio.Python.Builtins.{table_keys, each_item}
use claude_studio.Python.Stateful.{Stateful, ◌>>=◌, ◌>>◌, pure}
use claude_studio.Probes.Steps.{Settings, Harness, Run, check, ev, shown, probe_main}

module _ {W : Type 0} (h : Harness W) where
  -- The features F346
  unfoldable pub f346 : Stateful W (String × String)
  f346 = do
    r ← h.request "models.compare" (
        obj (
          field "prompt" (str "Review: const q = `SELECT * FROM u WHERE id=${id}`") (
            field "models" (arr (cons (str "claude-opus-4-8") (cons (str "claude-haiku-4-5") nil)))
              (field "binary" (str (concat (h.root ∷ "/test-harness/lib/stub_claude.sh" ∷ [])))
                end))))
    resp ← table_of (λ x. do pure ((← item x "model"), x)) (← each (← item r "responses")) []
    check (value_eq (← item r "count") (int (pos 2))) ""
    check (same_set (table_keys resp) ((str "claude-opus-4-8") ∷ (str "claude-haiku-4-5") ∷ [])) ""
    each_item
        (λ m x. do
          check_or (not (value_eq (← stripped (← item x "response")) (str "")))
              (do pure (concat (shown h m ∷ ": leere Antwort" ∷ [])))
          check_or (← greater (← item x "latency_ms") (int (pos 0)))
              (do pure (concat (shown h m ∷ ": keine Latenz" ∷ [])))
          check (← within "Schritt" (← item x "response")) "")
        resp
    path ← ev h "F346" "multi-model.json" (
        obj (
          field "models" (← item r "models") (
            field "columns"
              (arr (
                from_list
                  (← map_of
                    (λ x. do
                      pure (
                          obj (
                            field "model" (← item x "model") (
                              field "latency_ms" (← item x "latency_ms") (
                                field "response_len" (← len (← item x "response"))
                                  (field "cost_usd" (← item x "cost_usd") end))))))
                    (← each (← item r "responses")))))
              end)))
    pure (path, "2 Modelle parallel: je Antwort + Modellname + Latenz (Nebeneinander-Spalten)")

  abbrev pub settings : Settings
  settings = record {
    home = none;
    library_dir = some h.root;
    log_path = some "/tmp/b44.log";
    env_extra =
        field "CLAUDESTUDIO_CLAUDE_BIN"
          (str (concat (h.root ∷ "/test-harness/lib/stub_claude.sh" ∷ []))) end;
    seed_models = true;
  }

  -- The features of `main` in their order.
  abbrev pub claims : List (String × Stateful W (String × String))
  claims = ("F346", f346) ∷ []

  unfoldable pub main : Stateful (Run W) (Unit {0})
  main = probe_main h settings 30 claims
