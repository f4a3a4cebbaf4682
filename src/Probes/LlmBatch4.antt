-- ===== src/Probes/LlmBatch4.antt =====
-- test-harness/probes/llm_batch4.py: a task's test run.
use claude_studio.Prelude.{String, true, some, List, [], ◌∷◌}
use claude_studio.Prelude.Int.{pos}
use claude_studio.Python.Json.{int, str, obj, end, field, truthy}
use claude_studio.Python.Values.{value_eq, is_true, is_str, is_number}
use claude_studio.Python.Dynamic.{concat, item, prefix, stripped, greater, check_or}
use claude_studio.Python.Stateful.{Stateful, ◌>>=◌, ◌>>◌, pure, lift}
use claude_studio.Probes.Steps.{Settings, Harness, Run, check, ev, shown, probe_main}

module _ {W : Type 0} (h : Harness W) where
  -- The features F215
  unfoldable pub f215 : Stateful W (String × String)
  f215 = do
    r ← h.request "tasks.test_run" (
        obj (
          field "prompt"
            (str "Erkläre in zwei Sätzen, warum ein Health-Check-Endpoint nützlich ist.") end))
    check_or (is_true (← item r "ok")) (do pure (concat ("Lauf nicht ok: " ∷ shown h r ∷ [])))
    check_or (← greater (← item r "input_tokens") (int (pos 0)))
        (do pure (concat ("keine echten Tokens: " ∷ shown h r ∷ [])))
    check_or (← greater (← item r "output_tokens") (int (pos 0)))
        (do pure (concat ("keine echten Tokens: " ∷ shown h r ∷ [])))
    check
        (value_eq (← item r "total_tokens")
          (← lift (h.plus (← item r "input_tokens") (← item r "output_tokens"))))
        ""
    check_or (is_number (← item r "duration_ms"))
        (do pure (concat ("keine Dauer: " ∷ shown h r ∷ [])))
    check_or (← greater (← item r "duration_ms") (int (pos 0)))
        (do pure (concat ("keine Dauer: " ∷ shown h r ∷ [])))
    check (is_str (← item r "result")) "kein Ergebnis-Text"
    check (truthy (← stripped (← item r "result"))) "kein Ergebnis-Text"
    path ← ev h "F215" "task-test-run.json" (
        obj (
          field "input_tokens" (← item r "input_tokens") (
            field "output_tokens" (← item r "output_tokens") (
              field "total_tokens" (← item r "total_tokens") (
                field "duration_ms" (← item r "duration_ms") (
                  field "cost_usd" (← item r "cost_usd")
                    (field "result_preview" (← prefix (← item r "result") 120) end)))))))
    pure (
      path,
      concat (
          "echter Lauf: "
          ∷ shown h (← item r "total_tokens")
          ∷ " Tokens (in "
          ∷ shown h (← item r "input_tokens")
          ∷ "/out "
          ∷ shown h (← item r "output_tokens")
          ∷ "), "
          ∷ shown h (← item r "duration_ms")
          ∷ "ms"
          ∷ []),
    )

  abbrev pub settings : Settings
  settings = record {
    home = some h.user_home;
    library_dir = some h.root;
    log_path = some "/tmp/llm4.log";
    env_extra =
        field "CLAUDESTUDIO_CLAUDE_BIN" (str (concat (h.user_home ∷ "/.local/bin/claude" ∷ [])))
          end;
    seed_models = true;
  }

  -- The features of `main` in their order.
  abbrev pub claims : List (String × Stateful W (String × String))
  claims = ("F215", f215) ∷ []

  unfoldable pub main : Stateful (Run W) (Unit {0})
  main = probe_main h settings 300 claims
