-- ===== src/Probes/Batch25.antt =====
-- test-harness/probes/batch25.py: pipelines as graphs and injected definitions.
use claude_studio.Prelude.{String, true, none, some, List, [], ◌∷◌}
use claude_studio.Prelude.Int.{pos}
use claude_studio.Python.Json.{Json, float, str, arr, obj, nil, cons, end, field}
use claude_studio.Python.Values.{value_eq, is_true, any_eq, set_of, is_subset}
use claude_studio.Python.Dynamic.{concat, item, each, greater, within, hashed, map_of}
use claude_studio.Python.Builtins.{tuple_of}
use claude_studio.Python.Stateful.{Stateful, ◌>>=◌, ◌>>◌, pure, lift}
use claude_studio.Probes.Steps.{Settings, Harness, Run, check, ev, probe_main}

module _ {W : Type 0} (h : Harness W) where
  -- F269 pipeline visualizer parses jobs + needs edges from a workflow YAML
  unfoldable pub f269 : Stateful W (String × String)
  f269 = do
    let yml : Json =
        str
          "name: CI\non: [push]\njobs:\n  build:\n    runs-on: ubuntu-latest\n    steps:\n      - run: make\n  test:\n    needs: build\n    runs-on: ubuntu-latest\n    steps:\n      - run: make test\n  deploy:\n    needs: [test]\n    runs-on: ubuntu-latest\n    steps:\n      - run: make deploy\n"
    r ← h.request "pipeline.visualize" (obj (field "content" yml end))
    jobs ← pure (set_of (← map_of hashed (← each (← item r "jobs"))))
    edges ← pure (set_of (← map_of (λ e. do tuple_of e) (← each (← item r "edges"))))
    check (is_subset ((str "build") ∷ (str "test") ∷ (str "deploy") ∷ []) jobs) ""
    check (any_eq (arr (cons (str "build") (cons (str "test") nil))) edges) ""
    check (any_eq (arr (cons (str "test") (cons (str "deploy") nil))) edges) ""
    path ← ev h "F269" "pipeline-graph.json" r
    pure (path, "jeder Job als Knoten, needs-Abhaengigkeiten als Kanten (build->test->deploy)")

  -- F105 vector-find a definition + inject into the Ebene-5 (active_definitions) block
  unfoldable pub f105 : Stateful W (String × String)
  f105 = do
    let deftext : Json =
        str
          "Video Frame Loading Definition VECMARK_F105: Videos werden mit Poster-Frame und Lazy-Loading per IntersectionObserver geladen, Format-Prio WebM dann MP4."
    h.request "knowledge.teach" (
        obj (
          field "text" deftext
            (field "collection" (str "definitions") (field "source" (str "video-loading") end))))
    h.request "knowledge.teach" (
        obj (
          field "text" (str "Error Handling Standard: immer try/catch und Logging.")
            (field "collection" (str "definitions") (field "source" (str "error-handling") end))))
    r ←
        h.request "definitions.vector_inject"
          (obj (field "query" (str "Füge die Video-Loading-Definition hinzu") end))
    check (is_true (← item r "found")) ""
    check (← greater (← item r "score") (float (pos 3152519739159347) 52)) ""
    check (value_eq (← item r "definition") (str "video-loading")) ""
    check (← within "VECMARK_F105" (← item r "ebene5_block")) ""
    check (← within "active_definitions" (← item r "ebene5_block")) ""
    path ← ev h "F105" "vector-inject.json" r
    pure (
      path,
      concat (
          "Vector-Suche liefert 'video-loading' (Score "
          ∷ (← lift (h.format ".3f" (← item r "score")))
          ∷ ">0.7), VECMARK_F105 in Ebene5"
          ∷ []),
    )

  abbrev pub settings : Settings
  settings = record {
    home = none;
    library_dir = some h.root;
    log_path = some "/tmp/b25.log";
    env_extra = end;
    seed_models = true;
  }

  -- The features of `main` in their order.
  abbrev pub claims : List (String × Stateful W (String × String))
  claims = ("F269", f269) ∷ ("F105", f105) ∷ []

  unfoldable pub main : Stateful (Run W) (Unit {0})
  main = probe_main h settings 90 claims
