-- ===== src/Probes/Batch4.antt =====
-- test-harness/probes/batch4.py: definitions in the context and their suggestion.
use claude_studio.Prelude.{String, true, false, not, none, some, [], ◌∷◌}
use claude_studio.Prelude.Int.{pos}
use claude_studio.Python.Json.{Json, bool, int, str, arr, obj, nil, cons, end, field}
use claude_studio.Python.Values.{value_eq, is_false}
use claude_studio.Python.Dynamic.{from_list, item, prefix, each, greater, within, next_of, map_of}
use claude_studio.Python.Stateful.{Stateful, ◌>>=◌, ◌>>◌, pure}
use claude_studio.Probes.Steps.{
  Settings, Harness, Run, check, ev, close, in_core, on_world, attempts, print_results,
}

module _ {W : Type 0} (h : Harness W) where
  -- F099: inject a definition -> active_definitions layer carries it with tokens
  unfoldable pub f099 : Json → Stateful W (String × String)
  f099 defname = do
    a ←
        h.request "context.assemble"
          (obj (field "cwd" (str (h.root)) (field "definitions" (arr (cons defname nil)) end)))
    ad ←
        next_of (λ l. do pure (value_eq (← item l "layer") (str "active_definitions")))
          (← each (← item a "layers"))
    check (← greater (← item ad "tokens") (int (pos 0))) ""
    check (← within "Video Frame Loading" (← item ad "content")) ""
    check (← within "Video Frame Loading" (← item a "assembled_text")) ""
    path ← ev h "F099" "inject.json" (
        obj (
          field "active_definitions_tokens" (← item ad "tokens")
            (field "content_excerpt" (← prefix (← item ad "content") 200) end)))
    pure (path, "Definition injiziert (Token-Zähler real; Drag&Drop/blauer Block=UI)")

  -- F102: active-context data shows the active blocks; toggling removes them
  unfoldable pub f102 : Json → Stateful W (String × String)
  f102 defname = do
    both_reply ← h.request "context.assemble" (
        obj (
          field "cwd" (str (h.root)) (
            field "definitions" (arr (cons defname (cons (str "Error Handling Standard") nil)))
              end)))
    ad ←
        next_of (λ l. do pure (value_eq (← item l "layer") (str "active_definitions")))
          (← each (← item both_reply "layers"))
    check (← within "Video Frame Loading" (← item ad "content")) ""
    check (← within "Error Handling Standard" (← item ad "content")) ""
    removed ← h.request "context.assemble" (
        obj (
          field "cwd" (str (h.root)) (
            field "definitions" (arr (cons defname nil))
              (field "layers" (obj (field "active_definitions" (bool false) end)) end))))
    ad2 ←
        next_of (λ l. do pure (value_eq (← item l "layer") (str "active_definitions")))
          (← each (← item removed "layers"))
    check (is_false (← item ad2 "enabled")) ""
    check (not (← within "Video Frame Loading" (← item removed "assembled_text"))) ""
    path ←
        ev h "F102" "active-bar.json" (
          obj (field "two_active_blocks" (bool true) (field "after_remove_absent" (bool true) end)))
    pure (path, "aktive Definition-Blöcke + Entfernen (X-Button=UI)")

  -- F101: auto-suggest from prompt keywords
  unfoldable pub f101 : Json → Stateful W (String × String)
  f101 defname = do
    s ←
        h.request "definitions.suggest"
          (obj (field "prompt" (str "how should I handle video loading and performance?") end))
    names ←
        pure (arr (from_list (← map_of (λ x. do item x "name") (← each (← item s "suggestions")))))
    check (← within "Video Frame Loading" names) ""
    none_reply ←
        h.request "definitions.suggest"
          (obj (field "prompt" (str "quarterly tax filing deadlines") end))
    path ←
        ev h "F101" "suggest.json"
          (obj (field "matched" names (field "unrelated" (← item none_reply "suggestions") end)))
    pure (path, "Keyword-basierter Definition-Vorschlag")

  abbrev pub settings : Settings
  settings = record {
    home = none;
    library_dir = some h.root;
    log_path = some "/tmp/b4.log";
    env_extra = end;
    seed_models = true;
  }

  unfoldable pub features : Stateful (Run W) (Unit {0})
  features = do
    on_world h (h.connect 15)
    on_world h (do h.request "library.load_defaults" (obj end))
    let defname : Json = str "Video Frame Loading"
    attempts h (("F099", f099 defname) ∷ ("F102", f102 defname) ∷ ("F101", f101 defname) ∷ [])
    on_world h (close h)

  unfoldable pub main : Stateful (Run W) (Unit {0})
  main = do in_core h settings features; print_results h
