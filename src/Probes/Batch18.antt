-- ===== src/Probes/Batch18.antt =====
-- test-harness/probes/batch18.py: knowledge and its search, CSS variables and git sync.
use claude_studio.Prelude.{String, true, none, some, List, [], ◌∷◌}
use claude_studio.Prelude.Int.{pos}
use claude_studio.Python.Json.{Json, null, bool, int, float, str, obj, end, field, truthy}
use claude_studio.Python.Values.{value_eq, is_true}
use claude_studio.Python.Dynamic.{
  concat, item, nth, each, len, greater, at_most, at_least, within, any_of,
}
use claude_studio.Python.Builtins.{last, next_or, dict_values}
use claude_studio.Python.Stateful.{Stateful, ◌>>=◌, ◌>>◌, pure, lift}
use claude_studio.Probes.Steps.{Settings, Harness, Run, check, ev, probe_main, run_checked}

module _ {W : Type 0} (h : Harness W) where
  -- F180 Teach-Claude + retrieval next session
  unfoldable pub f180 : Stateful W (String × String)
  f180 = do
    h.request "knowledge.teach" (
        obj (
          field "text" (str "Stripe payment integration handles all invoice billing")
            (field "collection" (str "knowledge") (field "source" (str "pdf-drop") end))))
    h.request "knowledge.teach" (
        obj (
          field "text" (str "Chocolate cake recipe with two eggs and flour")
            (field "collection" (str "knowledge") (field "source" (str "noise") end))))
    r ← h.request "knowledge.search" (
        obj (
          field "query" (str "Zahlungsanbieter Rechnung")
            (field "collection" (str "knowledge") end)))
    top ← nth (← item r "hits") 0
    check (← within "Stripe payment" (← item top "text")) ""
    check (← greater (← item top "score") (float (pos 1) 1)) ""
    path ← ev h "F180" "teach.json" r
    pure (
      path,
      concat (
          "gedroppter Inhalt im Retrieval gefunden (Score "
          ∷ (← lift (h.format ".3f" (← item top "score")))
          ∷ ")"
          ∷ []),
    )

  -- F174 retrieval pipeline: prompt -> embed -> query -> top-K ranked
  unfoldable pub f174 : Stateful W (String × String)
  f174 = do
    r ← h.request "knowledge.search" (
        obj (
          field "query" (str "How did we integrate payments?")
            (field "collection" (str "knowledge") (field "top_k" (int (pos 2)) end))))
    check (← at_most (← len (← item r "hits")) (int (pos 2))) ""
    check
        (← at_least (← item (← nth (← item r "hits") 0) "score")
          (← item (← last (← item r "hits")) "score"))
        ""
    check (← within "Stripe payment" (← item (← nth (← item r "hits") 0) "text")) ""
    path ← ev h "F174" "pipeline.json" r
    pure (path, "Retrieval-Pipeline Prompt->Embedding->Top-K (rangiert)")

  -- F177 knowledge collection from a CLAUDE.md rule -> findable score>0.7
  unfoldable pub f177 : Stateful W (String × String)
  f177 = do
    let rule : Json =
        str "Regel: Immer Logging in catch-Bloecken hinzufuegen und Fehler nie verschlucken"
    h.request "knowledge.teach" (
        obj (
          field "text" rule
            (field "collection" (str "knowledge") (field "source" (str "CLAUDE.md") end))))
    r ← h.request "knowledge.search" (
        obj (
          field "query" (str "Logging in catch-Bloecken Regel Fehler")
            (field "collection" (str "knowledge") end)))
    hit ←
        next_or (λ h_reply. do within "catch-Bloecken" (← item h_reply "text"))
          (← each (← item r "hits")) (do pure (null))
    check (truthy hit) ""
    check (← greater (← item hit "score") (float (pos 3152519739159347) 52)) ""
    path ← ev h "F177" "knowledge-rule.json" hit
    pure (
      path,
      concat (
          "CLAUDE.md-Regel in knowledge auffindbar (Score "
          ∷ (← lift (h.format ".3f" (← item hit "score")))
          ∷ ">0.7)"
          ∷ []),
    )

  -- F179 errors collection: error+solution -> findable score>0.7
  unfoldable pub f179 : Stateful W (String × String)
  f179 = do
    let err_reply : Json =
        str "Error: NullPointerException im Parser. Loesung: Null-Check vor dem Zugriff einfuegen"
    h.request "knowledge.teach" (
        obj (
          field "text" err_reply
            (field "collection" (str "errors") (field "source" (str "session-hook") end))))
    r ← h.request "knowledge.search" (
        obj (
          field "query" (str "NullPointerException Parser Fehler Loesung Null-Check")
            (field "collection" (str "errors") end)))
    hit ← nth (← item r "hits") 0
    check (← within "NullPointer" (← item hit "text")) ""
    check (← greater (← item hit "score") (float (pos 3152519739159347) 52)) ""
    check (value_eq (← item hit "collection") (str "errors")) ""
    path ← ev h "F179" "errors.json" hit
    pure (
      path,
      concat (
          "Fehler+Loesung in errors auffindbar (Score "
          ∷ (← lift (h.format ".3f" (← item hit "score")))
          ∷ ">0.7)"
          ∷ []),
    )

  -- F339 CSS variable extractor
  unfoldable pub f339 : Stateful W (String × String)
  f339 = do
    let css : Json =
        str
          ".a{color:#1A73E8}.b{border:1px solid #1A73E8}.c{background:#1A73E8}.d{color:#EA4335}.e{color:#EA4335}"
    r ← h.request "css.extract" (obj (field "css" css end))
    check (← at_least (← item r "extracted") (int (pos 2))) ""
    check (← within "var(--color-0)" (← item r "transformed")) ""
    check
        (← any_of (λ v. do pure (value_eq v (str "#1A73E8")))
          (← dict_values (← item r "variables")))
        ""
    path ← ev h "F339" "css.json" r
    pure (path, "wiederholte Hex-Werte durch :root-Variablen ersetzt")

  -- F351 skill library git sync (push to bare remote, verify in a clone)
  unfoldable pub f351 : Stateful W (String × String)
  f351 = do
    bare ← pure (concat ((← h.mkdtemp "cs-b18-bare-") ∷ "/skills.git" ∷ []))
    run_checked h ("git" ∷ "init" ∷ "--bare" ∷ "-q" ∷ bare ∷ [])
    skills ← h.mkdtemp "cs-b18-skills-"
    h.write_file (concat (skills ∷ "/deploy.md" ∷ [])) "# /deploy\nDeploy the app.\n"
    r ←
        h.request "library.git_sync"
          (obj (field "dir" (str skills) (field "remote" (str bare) end)))
    check (is_true (← item r "ok")) ""
    clone ← pure (concat ((← h.mkdtemp "cs-b18-clone-") ∷ "/c" ∷ []))
    run_checked h ("git" ∷ "clone" ∷ "-q" ∷ bare ∷ clone ∷ [])
    check (← h.file_exists (concat (clone ∷ "/deploy.md" ∷ []))) ""
    check (← within "/deploy" (str (← h.read_file (concat (clone ∷ "/deploy.md" ∷ []))))) ""
    path ← ev h "F351" "git-sync.json" (obj (field "push" r (field "in_clone" (bool true) end)))
    pure (path, "Skill via Git-Sync gepusht und im zweiten Clone identisch vorhanden")

  abbrev pub settings : Settings
  settings = record {
    home = none;
    library_dir = some h.root;
    log_path = some "/tmp/b18.log";
    env_extra = end;
    seed_models = true;
  }

  -- The features of `main` in their order.
  abbrev pub claims : List (String × Stateful W (String × String))
  claims =
      ("F180", f180)
      ∷ ("F174", f174)
      ∷ ("F177", f177)
      ∷ ("F179", f179)
      ∷ ("F339", f339)
      ∷ ("F351", f351)
      ∷ []

  unfoldable pub main : Stateful (Run W) (Unit {0})
  main = probe_main h settings 15 claims
