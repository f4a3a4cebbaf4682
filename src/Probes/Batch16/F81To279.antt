-- ===== src/Probes/Batch16/F81To279.antt =====
-- test-harness/probes/batch16.py: the features F081, F080, F082, F088, F093, F098, F279.
use claude_studio.Prelude.{String, ◌&&◌, [], ◌∷◌}
use claude_studio.Prelude.Int.{pos}
use claude_studio.Python.Json.{Json, int, str, obj, end, field, truthy}
use claude_studio.Python.Values.{value_eq, is_true, is_false, set_of, is_subset, is_list}
use claude_studio.Python.Dynamic.{concat, item, len, greater, at_least, within, both, any_of}
use claude_studio.Python.Builtins.{repeated, dict_keys, dict_values}
use claude_studio.Python.Stateful.{Stateful, ◌>>=◌, ◌>>◌, pure}
use claude_studio.Probes.Steps.{Harness, check, ev}

module _ {W : Type 0} (h : Harness W) where
  -- F081 context sections
  unfoldable pub f081 : Stateful W (String × String)
  f081 = do
    s ← item (← h.request "context.sections" (obj end)) "sections"
    check (← within "Regeln" s) ""
    check (← within "Coding Preferences" s) ""
    check (value_eq (← len s) (int (pos 7))) ""
    path ← ev h "F081" "sections.json" s
    pure (path, "7 vorgefertigte Editor-Sektionen")

  -- F080 token warning
  unfoldable pub f080 : Stateful W (String × String)
  f080 = do
    big ← h.request "context.token_check" (obj (field "content" (str (repeated 6000 "word ")) end))
    small ← h.request "context.token_check" (obj (field "content" (str "kurz") end))
    check (is_true (← item big "warning")) ""
    check (is_false (← item small "warning")) ""
    path ← ev h "F080" "token-warn.json" (obj (field "big" big (field "small" small end)))
    pure (path, "Token-Warnung >4000")

  -- F082 diff to last
  unfoldable pub f082 : Stateful W (String × String)
  f082 = do
    f ← h.mktemp ".md"
    h.write_file f "line a\nline b\nline c\n"
    r ←
        h.request "context.diff"
          (obj (field "path" (str f) (field "buffer" (str "line a\nline B CHANGED\nline c\n") end)))
    check (is_true (← item r "changed")) ""
    check (← within "line B CHANGED" (← item r "added")) ""
    check (← within "line b" (← item r "removed")) ""
    path ← ev h "F082" "diff.json" r
    pure (path, "Diff Buffer vs gespeicherte Version")

  -- F088 memory categorize
  unfoldable pub f088 : Stateful W (String × String)
  f088 = do
    let md : Json = str "# Projekte\n- Abrevia\n# Assets\n- logo.svg\n# Preferences\n- pnpm\n"
    r ← h.request "memory.categorize" (obj (field "content" md end))
    check
        (is_subset ((str "Projekte") ∷ (str "Assets") ∷ (str "Preferences") ∷ [])
          (set_of (← dict_keys (← item r "categories"))))
        ""
    path ← ev h "F088" "categorize.json" r
    pure (path, "Memory in Kategorien gruppiert")

  -- F093 memory token usage bar
  unfoldable pub f093 : Stateful W (String × String)
  f093 = do
    h.request "memory.set" (
        obj (
          field "scope" (str "global")
            (field "content" (str (concat ("# Memory\n" ∷ (repeated 200 "fakt ") ∷ []))) end)))
    r ← h.request "memory.token_usage" (obj (field "scope" (str "global") end))
    check (← greater (← item r "tokens") (int (pos 0))) ""
    check (← greater (← item r "fraction") (int (pos 0))) ""
    path ← ev h "F093" "token-usage.json" r
    pure (path, "Memory-Token-Usage gegen Budget")

  -- F098 definitions grouped by category
  unfoldable pub f098 : Stateful W (String × String)
  f098 = do
    r ← h.request "definitions.grouped" (obj end)
    check (← at_least (← item r "group_count") (int (pos 2))) ""
    check (← any_of (λ v. do pure ((is_list v) && (truthy v))) (← dict_values (← item r "groups")))
        ""
    path ← ev h "F098" "grouped.json" r
    pure (path, "Definitionen nach category gruppiert")

  -- F279 cost estimate
  unfoldable pub f279 : Stateful W (String × String)
  f279 = do
    opus ← h.request "cost.estimate" (
        obj (
          field "model" (str "opus") (
            field "input_tokens" (int (pos 100000)) (field "output_tokens" (int (pos 20000)) end))))
    haiku ← h.request "cost.estimate" (
        obj (
          field "model" (str "haiku") (
            field "input_tokens" (int (pos 100000)) (field "output_tokens" (int (pos 20000)) end))))
    check
        (← (do
          left_end ← pure (← item opus "estimated_usd")
          middle ← item haiku "estimated_usd"
          both (do greater left_end middle) (do greater middle (int (pos 0)))))
        ""
    path ← ev h "F279" "estimate.json" (obj (field "opus" opus (field "haiku" haiku end)))
    pure (path, "Live-USD-Schätzung")
