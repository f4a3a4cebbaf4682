-- ===== src/Probes/Batch17/F335To360.antt =====
-- test-harness/probes/batch17.py: the features F335, F343, F354, F355, F360.
use claude_studio.Prelude.{String, true, false, [], ◌∷◌}
use claude_studio.Prelude.Int.{pos}
use claude_studio.Python.Json.{bool, int, str, obj, end, field}
use claude_studio.Python.Values.{value_eq, is_true, any_eq, set_of}
use claude_studio.Python.Dynamic.{concat, item, nth, each, at_least, within, hashed, map_of}
use claude_studio.Python.Stateful.{Stateful, ◌>>=◌, ◌>>◌, pure}
use claude_studio.Probes.Steps.{Harness, check, ev, shown}

module _ {W : Type 0} (h : Harness W) where
  -- F335 comment quality
  unfoldable pub f335 : Stateful W (String × String)
  f335 = do
    proj ← h.mkdtemp "cs-b17-cq-"
    h.write_file (concat (proj ∷ "/a.ts" ∷ []))
        "// TODO: refactor this\nconst x=1\n// FIXME broken\n"
    r ← h.request "codeq.comment_quality" (obj (field "cwd" (str proj) end))
    markers ←
        pure (set_of (← map_of (λ f. do hashed (← item f "marker")) (← each (← item r "findings"))))
    check (any_eq (str "TODO") markers) ""
    check (any_eq (str "FIXME") markers) ""
    path ← ev h "F335" "comments.json" r
    pure (path, "veraltete/markierte Kommentare gemeldet")

  -- F343 JS -> TS migration
  unfoldable pub f343 : Stateful W (String × String)
  f343 = do
    r ←
        h.request "refactor.js_to_ts"
          (obj (field "content" (str "function add(a, b) {\n  return a + b\n}\n") end))
    check (← within "a: any" (← item r "ts")) ""
    check (← within "b: any" (← item r "ts")) ""
    check (← at_least (← item r "annotations_added") (int (pos 2))) ""
    path ← ev h "F343" "jsts.ts" (← item r "ts")
    pure (path, "JS->TS: Parameter mit Typen annotiert (basic)")

  -- F354 smart resume
  unfoldable pub f354 : Stateful W (String × String)
  f354 = do
    h.request "session.create"
        (obj (field "title" (str "interrupted work") (field "cwd" (str (h.root)) end)))
    r ← h.request "resume.detect" (obj end)
    check (is_true (← item r "resumable")) ""
    check (value_eq (← item (← item r "session") "title") (str "interrupted work")) ""
    path ← ev h "F354" "resume.json" r
    pure (path, "unterbrochene Session zum Fortsetzen erkannt")

  -- F355 daily briefing
  unfoldable pub f355 : Stateful W (String × String)
  f355 = do
    proj ← h.mkdtemp "cs-b17-brief-"
    h.write_file (concat (proj ∷ "/x.ts" ∷ [])) "// TODO: write docs\n// FIXME: urgent crash\n"
    r ← h.request "briefing.daily" (obj (field "cwd" (str proj) end))
    check (← at_least (← item r "count") (int (pos 2))) ""
    check (value_eq (← item (← nth (← item r "items") 0) "priority") (str "high")) ""
    path ← ev h "F355" "briefing.json" r
    pure (path, "Daily-Briefing priorisiert aus TODOs")

  -- F360 local-LLM fallback
  unfoldable pub f360 : Stateful W (String × String × String)
  f360 = do
    cloud ← h.request "llm.fallback" (obj (field "cloud_available" (bool true) end))
    offline ← h.request "llm.fallback" (obj (field "cloud_available" (bool false) end))
    check (value_eq (← item cloud "provider") (str "anthropic")) ""
    local ← pure (value_eq (← item offline "provider") (str "ollama"))
    elim local [
      | true ↦ (do
        path ← ev h "F360" "fallback.json" (obj (field "cloud" cloud (field "offline" offline end)))
        pure ("pass", path, "Cloud offline -> lokales Ollama gewählt"))
      | false ↦ (do
        pure (
          "blocked",
          "",
          concat (
              "Ollama nicht erreichbar (provider="
              ∷ shown h (← item offline "provider")
              ∷ "); Fallback-Logik korrekt, Ziel fehlt"
              ∷ []),
        ))
    ]
