-- ===== src/Probes/Batch6.antt =====
-- test-harness/probes/batch6.py: token usage and cost of sessions.
use claude_studio.Prelude.{String, true, none, some, [], ◌∷◌}
use claude_studio.Prelude.Int.{pos}
use claude_studio.Python.Json.{Json, int, float, str, obj, end, field}
use claude_studio.Python.Values.{value_eq}
use claude_studio.Python.Dynamic.{
  concat, item, each, less, absolute, check_or, next_of, table_of, table_item,
}
use claude_studio.Python.Stateful.{Stateful, ◌>>=◌, ◌>>◌, pure, lift}
use claude_studio.Probes.Steps.{
  Settings, Harness, Run, check, ev, shown, close, in_core, on_world, attempts, print_results,
  table_json,
}

module _ {W : Type 0} (h : Harness W) where
  -- F153: token breakdown persisted + readable per session
  unfoldable pub f153 : Json → Json → Stateful W (String × String)
  f153 sa sb = do
    u ← item (← h.request "session.get" (obj (field "id" sa end))) "usage"
    check (value_eq (← item u "input_tokens") (int (pos 1000))) ""
    check (value_eq (← item u "output_tokens") (int (pos 500))) ""
    check (value_eq (← item u "cache_read_tokens") (int (pos 2000))) ""
    check (value_eq (← item u "cache_creation_tokens") (int (pos 100))) ""
    path ← ev h "F153" "token-breakdown.json" u
    pure (path, "Input/Output/Cache-Token persistiert + per Session lesbar")

  -- F154: USD cost persisted
  unfoldable pub f154 : Json → Json → Stateful W (String × String)
  f154 sa sb = do
    u ← item (← h.request "session.get" (obj (field "id" sa end))) "usage"
    check
        (← less (← absolute (← lift (h.minus (← item u "cost_usd") (float (pos 1) 1))))
          (float (pos 4835703278458517) 82))
        ""
    path ← ev h "F154" "cost.json" u
    pure (path, "USD-Kosten persistiert")

  -- F164: most expensive session in stats
  unfoldable pub f164 : Json → Json → Stateful W (String × String)
  f164 sa sb = do
    st ← h.request "session.stats" (obj end)
    me ← item st "most_expensive_session"
    check (value_eq (← item me "session_id") sa) ""
    check
        (← less (← absolute (← lift (h.minus (← item me "cost_usd") (float (pos 1) 1))))
          (float (pos 4835703278458517) 82))
        ""
    check
        (← less
          (← absolute
            (← lift (h.minus (← item st "total_cost_usd") (float (pos 2476979795053773) 52))))
          (float (pos 4835703278458517) 82))
        ""
    path ← ev h "F164" "most-expensive.json" st
    pure (path, "teuerste Session + Gesamtkosten korrekt")

  -- F277: cost dashboard grouped by model / agent / project
  unfoldable pub f277 : Json → Json → Stateful W (String × String)
  f277 sa sb = do
    by_model ←
        table_of (λ g. do pure ((← item g "key"), (← item g "cost_usd")))
          (← each
            (← item (← h.request "cost.summary" (obj (field "group_by" (str "model") end)))
              "groups"))
          []
    by_agent ←
        table_of (λ g. do pure ((← item g "key"), (← item g "cost_usd")))
          (← each
            (← item (← h.request "cost.summary" (obj (field "group_by" (str "agent") end)))
              "groups"))
          []
    by_proj ←
        table_of (λ g. do pure ((← item g "key"), (← item g "cost_usd")))
          (← each
            (← item (← h.request "cost.summary" (obj (field "group_by" (str "project") end)))
              "groups"))
          []
    check (value_eq (← table_item by_model (str "opus")) (float (pos 1) 1)) ""
    check (value_eq (← table_item by_model (str "haiku")) (float (pos 3602879701896397) 56)) ""
    check (value_eq (← table_item by_agent (str "arch")) (float (pos 1) 1)) ""
    check (value_eq (← table_item by_proj (str "todo-api")) (float (pos 1) 1)) ""
    path ← ev h "F277" "dashboard.json" (
        obj (
          field "by_model" (table_json h by_model) (
            field "by_agent" (table_json h by_agent)
              (field "by_project" (table_json h by_proj) end))))
    pure (path, "Kosten-Dashboard nach Modell/Agent/Projekt")

  -- F278: model breakdown carries input/output/cache token fields
  unfoldable pub f278 : Json → Json → Stateful W (String × String)
  f278 sa sb = do
    groups ← item (← h.request "cost.summary" (obj (field "group_by" (str "model") end))) "groups"
    opus ← next_of (λ g. do pure (value_eq (← item g "key") (str "opus"))) (← each groups)
    check (value_eq (← item opus "input_tokens") (int (pos 1000))) ""
    check (value_eq (← item opus "output_tokens") (int (pos 500))) ""
    check (value_eq (← item opus "cache_read_tokens") (int (pos 2000))) ""
    check (value_eq (← item opus "cache_creation_tokens") (int (pos 100))) ""
    path ← ev h "F278" "model-breakdown.json" opus
    pure (path, "Model-Breakdown Input/Output/Cache-Read/Cache-Creation")

  -- F281: cache hit rate = cache_read / (cache_read + input)
  unfoldable pub f281 : Json → Json → Stateful W (String × String)
  f281 sa sb = do
    rate ← item (← h.request "cost.cache_hit_rate" (obj end)) "cache_hit_rate"
    check_or
        (← less (← absolute (← lift (h.minus rate (float (pos 3) 3))))
          (float (pos 4835703278458517) 82))
        (do pure (concat ("rate=" ∷ shown h rate ∷ [])))
    path ←
        ev h "F281" "cache-rate.json"
          (obj (field "cache_hit_rate" rate (field "expected" (float (pos 3) 3) end)))
    pure (path, "Cache-Hit-Rate korrekt berechnet")

  abbrev pub settings : Settings
  settings = record {
    home = none;
    library_dir = some h.root;
    log_path = some "/tmp/b6.log";
    env_extra = end;
    seed_models = true;
  }

  unfoldable pub features : Stateful (Run W) (Unit {0})
  features = do
    on_world h (h.connect 15)
    sa ← on_world h (do
      item
          (← h.request "session.create"
            (obj (field "title" (str "Arch") (field "cwd" (str (h.root)) end))))
          "id")
    sb ← on_world h (do
      item
          (← h.request "session.create"
            (obj (field "title" (str "Docs") (field "cwd" (str (h.root)) end))))
          "id")
    on_world h (do
      h.request "session.record_usage" (
          obj (
            field "session_id" sa (
              field "model" (str "opus") (
                field "agent" (str "arch") (
                  field "project" (str "todo-api") (
                    field "input_tokens" (int (pos 1000)) (
                      field "output_tokens" (int (pos 500)) (
                        field "cache_read_tokens" (int (pos 2000)) (
                          field "cache_creation_tokens" (int (pos 100))
                            (field "cost_usd" (float (pos 1) 1) end)))))))))))
    on_world h (do
      h.request "session.record_usage" (
          obj (
            field "session_id" sb (
              field "model" (str "haiku") (
                field "agent" (str "docs") (
                  field "project" (str "landing") (
                    field "input_tokens" (int (pos 4000)) (
                      field "output_tokens" (int (pos 200)) (
                        field "cache_read_tokens" (int (pos 1000)) (
                          field "cache_creation_tokens" (int (pos 0))
                            (field "cost_usd" (float (pos 3602879701896397) 56) end)))))))))))
    attempts h (
        ("F153", f153 sa sb)
        ∷ ("F154", f154 sa sb)
        ∷ ("F164", f164 sa sb)
        ∷ ("F277", f277 sa sb)
        ∷ ("F278", f278 sa sb)
        ∷ ("F281", f281 sa sb)
        ∷ [])
    on_world h (close h)

  unfoldable pub main : Stateful (Run W) (Unit {0})
  main = do in_core h settings features; print_results h
