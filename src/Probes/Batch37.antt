-- ===== src/Probes/Batch37.antt =====
-- test-harness/probes/batch37.py: status of files and trees of several projects.
use claude_studio.Prelude.{String, true, not, none, some, List, [], ◌∷◌}
use claude_studio.Prelude.Int.{pos}
use claude_studio.Python.Json.{Json, Fields, int, str, arr, obj, nil, cons, end, field, truthy}
use claude_studio.Python.Values.{value_eq, any_eq, set_of, same_set}
use claude_studio.Python.Dynamic.{concat, item, each, within, hashed, map_of, table_of, table_item}
use claude_studio.Python.Stateful.{Stateful, ◌>>=◌, ◌>>◌, pure}
use claude_studio.Probes.Steps.{Settings, Harness, Run, check, ev, probe_main}

-- What git gets in its environment.
abbrev environment : Fields
environment = field "GIT_AUTHOR_NAME" (str "B37") (
    field "GIT_AUTHOR_EMAIL" (str "b37@cs.test") (
      field "GIT_COMMITTER_NAME" (str "B37") (field "GIT_COMMITTER_EMAIL" (str "b37@cs.test") end)))

module _ {W : Type 0} (h : Harness W) where
  unfoldable pub git : String → List String → Stateful W Json
  git repo arguments = h.run_process ("git" ∷ "-C" ∷ repo ∷ arguments) environment

  -- F052 — Status-Indikatoren je Datei
  unfoldable pub f052 : Stateful W (String × String)
  f052 = do
    repo ← h.mkdtemp "cs-b37-status-"
    git repo ("init" ∷ "-q" ∷ "-b" ∷ "main" ∷ [])
    h.write_file (concat (repo ∷ "/deploy.key" ∷ [])) "TOKEN=abc\n"
    h.write_file (concat (repo ∷ "/logo.svg" ∷ [])) "<svg/>\n"
    h.write_file (concat (repo ∷ "/main.py" ∷ [])) "print(1)\n"
    git repo ("add" ∷ "-A" ∷ [])
    git repo ("commit" ∷ "-qm" ∷ "init" ∷ [])
    h.write_file (concat (repo ∷ "/main.py" ∷ [])) "print(2)  # edit\n"
    h.request "file.to_asset" (obj (field "path" (str (concat (repo ∷ "/logo.svg" ∷ []))) end))
    r ← h.request "files.status_indicators" (
        obj (
          field "cwd" (str repo) (
            field "files"
              (arr (cons (str "deploy.key") (cons (str "logo.svg") (cons (str "main.py") nil))))
              end)))
    by_reply ← table_of (λ f. do pure ((← item f "path"), f)) (← each (← item r "files")) []
    check (truthy (← item (← table_item by_reply (str "deploy.key")) "protected")) ""
    check (← within "lock" (← item (← table_item by_reply (str "deploy.key")) "symbols")) ""
    check (truthy (← item (← table_item by_reply (str "logo.svg")) "brain_asset")) ""
    check (← within "brain" (← item (← table_item by_reply (str "logo.svg")) "symbols")) ""
    check (truthy (← item (← table_item by_reply (str "main.py")) "edited")) ""
    check (← within "pencil" (← item (← table_item by_reply (str "main.py")) "symbols")) ""
    check (not (truthy (← item (← table_item by_reply (str "deploy.key")) "edited"))) ""
    check (not (truthy (← item (← table_item by_reply (str "main.py")) "protected"))) ""
    check (not (truthy (← item (← table_item by_reply (str "logo.svg")) "edited"))) ""
    check (not (truthy (← item (← table_item by_reply (str "main.py")) "brain_asset"))) ""
    path ← ev h "F052" "status-indicators.json" r
    pure (path, "geschützt(lock)/Brain-Asset(brain)/bearbeitet(pencil) korrekt je Datei")

  -- F063 — Cross-Project-Modus: zwei Wurzeln parallel
  unfoldable pub f063 : Stateful W (String × String)
  f063 = do
    base ← h.mkdtemp "cs-b37-cross-"
    let todo : String = (concat (base ∷ "/todo-api" ∷ []))
    h.make_dir (concat (todo ∷ "/src" ∷ []))
    h.write_file (concat (todo ∷ "/package.json" ∷ [])) "{\"name\":\"todo-api\"}"
    h.write_file (concat (todo ∷ "/src/index.ts" ∷ [])) "export const x = 1\n"
    let land : String = (concat (base ∷ "/landing-page" ∷ []))
    h.make_dir land
    h.write_file (concat (land ∷ "/index.html" ∷ [])) "<html></html>\n"
    r ←
        h.request "files.cross_project_tree"
          (obj (field "roots" (arr (cons (str todo) (cons (str land) nil))) end))
    names ←
        pure (set_of (← map_of (λ pj. do hashed (← item pj "name")) (← each (← item r "projects"))))
    check (value_eq (← item r "count") (int (pos 2))) ""
    check (same_set names ((str "todo-api") ∷ (str "landing-page") ∷ [])) ""
    by_reply ← table_of (λ pj. do pure ((← item pj "name"), pj)) (← each (← item r "projects")) []
    todo_entries ← pure (
        set_of
          (← map_of (λ e. do hashed (← item e "name"))
            (← each (← item (← table_item by_reply (str "todo-api")) "entries"))))
    land_entries ← pure (
        set_of
          (← map_of (λ e. do hashed (← item e "name"))
            (← each (← item (← table_item by_reply (str "landing-page")) "entries"))))
    check (any_eq (str "package.json") todo_entries) ""
    check (any_eq (str "src") todo_entries) ""
    check (any_eq (str "index.html") land_entries) ""
    path ← ev h "F063" "cross-project.json" r
    pure (path, "beide Projektwurzeln todo-api + landing-page parallel mit Einträgen")

  abbrev pub settings : Settings
  settings = record {
    home = none;
    library_dir = some h.root;
    log_path = some "/tmp/b37.log";
    env_extra = end;
    seed_models = true;
  }

  -- The features of `main` in their order.
  abbrev pub claims : List (String × Stateful W (String × String))
  claims = ("F052", f052) ∷ ("F063", f063) ∷ []

  unfoldable pub main : Stateful (Run W) (Unit {0})
  main = probe_main h settings 15 claims
