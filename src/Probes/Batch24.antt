-- ===== src/Probes/Batch24.antt =====
-- test-harness/probes/batch24.py: stale memory, chunks of transcripts and a hook after writing.
use claude_studio.Prelude.{String, true, none, some, List, [], ◌∷◌, if◌then◌else◌}
use claude_studio.Prelude.Int.{pos}
use claude_studio.Python.Json.{Json, int, str, arr, obj, nil, cons, end, field, truthy}
use claude_studio.Python.Values.{value_eq, is_true, is_false}
use claude_studio.Python.Dynamic.{
  from_list, concat, item, nth, prefix, each, len, at_most, at_least, within, both, all_of, map_of,
  table_of, table_item,
}
use claude_studio.Python.Builtins.{all_but_last, repeated}
use claude_studio.Python.Stateful.{Stateful, ◌>>=◌, ◌>>◌, pure}
use claude_studio.Probes.Steps.{Settings, Harness, Run, check, ev, shown, probe_main}

module _ {W : Type 0} (h : Harness W) where
  -- F092 memory staleness: >90 days -> stale, 10 days -> not
  unfoldable pub f092 : Stateful W (String × String)
  f092 = do
    let now : Json = int (pos 1800000000000)
    r ← h.request "memory.mark_stale" (
        obj (
          field "now_ms" now (
            field "entries"
              (arr (
                cons
                  (obj
                    (field "name" (str "alt") (field "last_used_ms" (int (pos 1791360000000)) end)))
                  (cons
                    (obj (
                      field "name" (str "frisch")
                        (field "last_used_ms" (int (pos 1799136000000)) end)))
                    nil)))
              end)))
    by_reply ←
        table_of (λ e. do pure ((← item e "name"), (← item e "stale")))
          (← each (← item r "entries")) []
    check (is_true (← table_item by_reply (str "alt"))) ""
    check (is_false (← table_item by_reply (str "frisch"))) ""
    check (value_eq (← item r "stale_count") (int (pos 1))) ""
    path ← ev h "F092" "stale.json" r
    pure (path, "Eintrag >90 Tage als veraltet markiert, 10 Tage nicht")

  -- F175 auto-chunking of a long transcript into ~300-token chunks
  unfoldable pub f175 : Stateful W (String × String)
  f175 = do
    let sentence : Json =
        str "Der Agent integrierte die Stripe-Zahlung und schrieb Tests fuer die Rechnungslogik. "
    let transcript : String =
        repeated 200
          "Der Agent integrierte die Stripe-Zahlung und schrieb Tests fuer die Rechnungslogik. "
    r ← h.request "knowledge.chunk_text" (
        obj (
          field "text" (str transcript)
            (field "chunk_tokens" (int (pos 300)) (field "collection" (str "sessions") end))))
    toks ←
        pure (arr (from_list (← map_of (λ ch. do item ch "tokens") (← each (← item r "chunks")))))
    check (← at_least (← item r "chunk_count") (int (pos 4))) ""
    check
        (← all_of (λ t. do both (do at_most (int (pos 250)) t) (do at_most t (int (pos 360))))
          (← each (← all_but_last toks)))
        ""
    hits ←
        item
          (← h.request "knowledge.search" (
            obj (
              field "query" (str "Stripe Zahlung Rechnungslogik")
                (field "collection" (str "sessions") (field "top_k" (int (pos 50)) end)))))
          "hits"
    check
        (← all_of (λ h_reply. do pure (value_eq (← item h_reply "collection") (str "sessions")))
          (← each hits))
        ""
    check (← at_least (← len hits) (← item r "chunk_count")) ""
    path ← ev h "F175" "chunking.json" (
        obj (
          field "chunk_count" (← item r "chunk_count")
            (field "token_sizes" (← prefix toks 6) (field "stored_in_sessions" (← len hits) end))))
    pure (
      path,
      concat (
          "Transcript in "
          ∷ shown h (← item r "chunk_count")
          ∷ " ~300-Token-Chunks zerlegt + in 'sessions' gespeichert"
          ∷ []),
    )

  -- F259 npm-test-after-Write hook runs a real `npm test`
  unfoldable pub f259 : Stateful W (String × String)
  f259 = do
    proj ← h.mkdtemp "cs-b24-npm-"
    h.write_file (concat (proj ∷ "/package.json" ∷ [])) (
        h.dumps_ascii (
          obj (
            field "name" (str "demo") (
              field "version" (str "1.0.0")
                (field "scripts" (obj (field "test" (str "echo \"Tests: 3 passing\"") end)) end)))))
    h.request "hooks.add" (
        obj (
          field "cwd" (str proj) (
            field "event" (str "PostToolUse")
              (field "matcher" (str "Write") (field "command" (str "npm test --silent") end)))))
    h.write_file (concat (proj ∷ "/index.js" ∷ [])) "module.exports = 1\n"
    run ← h.request "hooks.run" (
        obj (
          field "cwd" (str proj) (
            field "event" (str "PostToolUse") (
              field "tool" (str "Write")
                (field "file" (str (concat (proj ∷ "/index.js" ∷ []))) end)))))
    out ← (do
      if truthy (← item run "fired")
          then (do item (← nth (← item run "fired") 0) "stdout")
          else (do pure (str "")))
    check (← within "3 passing" out) ""
    check (value_eq (← item (← nth (← item run "fired") 0) "exit") (int (pos 0))) ""
    path ← ev h "F259" "npm-test-hook.json" run
    pure (path, "PostToolUse-Hook 'npm test' lief, Output mit bestandenen Tests im Log")

  abbrev pub settings : Settings
  settings = record {
    home = none;
    library_dir = some h.root;
    log_path = some "/tmp/b24.log";
    env_extra = end;
    seed_models = true;
  }

  -- The features of `main` in their order.
  abbrev pub claims : List (String × Stateful W (String × String))
  claims = ("F092", f092) ∷ ("F175", f175) ∷ ("F259", f259) ∷ []

  unfoldable pub main : Stateful (Run W) (Unit {0})
  main = probe_main h settings 90 claims
