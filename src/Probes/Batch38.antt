-- ===== src/Probes/Batch38.antt =====
-- test-harness/probes/batch38.py: coloured diffs and details of graph nodes.
use claude_studio.Prelude.{String, true, none, some, List, [], ◌∷◌}
use claude_studio.Prelude.Int.{pos}
use claude_studio.Python.Json.{Json, Fields, int, str, arr, obj, nil, cons, end, field, truthy}
use claude_studio.Python.Values.{value_eq, any_eq, set_of}
use claude_studio.Python.Dynamic.{
  from_list, concat, item, get_item, nth, each, len, within, or_value, hashed, any_of, all_of,
  select_of, map_of,
}
use claude_studio.Python.Stateful.{Stateful, ◌>>=◌, ◌>>◌, pure}
use claude_studio.Probes.Steps.{Settings, Harness, Run, check, ev, shown, probe_main}

-- What git gets in its environment.
abbrev environment : Fields
environment = field "GIT_AUTHOR_NAME" (str "B38") (
    field "GIT_AUTHOR_EMAIL" (str "b38@cs.test") (
      field "GIT_COMMITTER_NAME" (str "B38") (field "GIT_COMMITTER_EMAIL" (str "b38@cs.test") end)))

module _ {W : Type 0} (h : Harness W) where
  unfoldable pub git : String → List String → Stateful W Json
  git repo arguments = h.run_process ("git" ∷ "-C" ∷ repo ∷ arguments) environment

  unfoldable pub nid : Json → Stateful W Json
  nid resp = do or_value (← get_item resp "id") (do get_item resp "node_id")

  -- F161 — Unified-Diff farbcodiert rendern
  unfoldable pub f161 : Stateful W (String × String)
  f161 = do
    repo ← h.mkdtemp "cs-b38-diff-"
    git repo ("init" ∷ "-q" ∷ "-b" ∷ "main" ∷ [])
    h.write_file (concat (repo ∷ "/app.py" ∷ [])) "a = 1\nb = 2\nc = 3\n"
    git repo ("add" ∷ "-A" ∷ [])
    git repo ("commit" ∷ "-qm" ∷ "init" ∷ [])
    h.write_file (concat (repo ∷ "/app.py" ∷ [])) "a = 1\nb = 22\nc = 3\nd = 4\n"
    diff ← item (← git repo ("diff" ∷ "--" ∷ "app.py" ∷ [])) "stdout"
    r ← h.request "diff.render" (obj (field "diff" diff end))
    lines ← item r "lines"
    adds ← pure (
        arr (
          from_list
            (← select_of (λ ln. do pure (value_eq (← item ln "type") (str "add")))
              (λ ln. do pure (ln)) (← each lines))))
    dels ← pure (
        arr (
          from_list
            (← select_of (λ ln. do pure (value_eq (← item ln "type") (str "remove")))
              (λ ln. do pure (ln)) (← each lines))))
    check (truthy adds) ""
    check (truthy dels) ""
    check (← all_of (λ ln. do pure (value_eq (← item ln "color") (str "green"))) (← each adds)) ""
    check (← all_of (λ ln. do pure (value_eq (← item ln "color") (str "red"))) (← each dels)) ""
    check (← any_of (λ ln. do within "d = 4" (← item ln "text")) (← each adds)) ""
    check (← any_of (λ ln. do within "b = 2" (← item ln "text")) (← each dels)) ""
    check (value_eq (← item r "added") (← len adds)) ""
    check (value_eq (← item r "removed") (← len dels)) ""
    path ← ev h "F161" "diff-render.json" (
        obj (
          field "added" (← item r "added") (
            field "removed" (← item r "removed")
              (field "add_sample" (← nth adds 0) (field "remove_sample" (← nth dels 0) end)))))
    pure (
      path,
      concat (
          "Diff farbcodiert: "
          ∷ shown h (← item r "added")
          ∷ " grün (+), "
          ∷ shown h (← item r "removed")
          ∷ " rot (-)"
          ∷ []),
    )

  -- F191 — Graph Node-Detail mit Typ, Metadaten und Kanten
  unfoldable pub f191 : Stateful W (String × String)
  f191 = do
    proj ←
        nid
          (← h.request "graph.add_node"
            (obj (field "type" (str "project") (field "label" (str "todo-api") end))))
    logo ←
        nid
          (← h.request "graph.add_node" (
            obj (
              field "type" (str "asset") (
                field "label" (str "Logo") (
                  field "props"
                    (obj (field "path" (str "assets/logo.svg") (field "kind" (str "svg") end)))
                    end)))))
    comp ←
        nid
          (← h.request "graph.add_node"
            (obj (field "type" (str "concept") (field "label" (str "Header-Component") end))))
    h.request "graph.add_edge"
        (obj (field "type" (str "BELONGS_TO") (field "from" logo (field "to" proj end))))
    h.request "graph.add_edge"
        (obj (field "type" (str "USES_ASSET") (field "from" comp (field "to" logo end))))
    d ← h.request "graph.node_detail" (obj (field "label" (str "Logo") end))
    check (truthy (← item d "found")) ""
    check (value_eq (← item d "type") (str "asset")) ""
    check (value_eq (← item (← item d "props") "path") (str "assets/logo.svg")) ""
    out_labels ← pure (
        set_of
          (← map_of
            (λ e. do
              pure (
                  arr (
                    cons (← hashed (← item e "to_label")) (cons (← hashed (← item e "type")) nil))))
            (← each (← item d "outgoing"))))
    in_labels ← pure (
        set_of
          (← map_of
            (λ e. do
              pure (
                  arr (
                    cons (← hashed (← item e "from_label"))
                      (cons (← hashed (← item e "type")) nil))))
            (← each (← item d "incoming"))))
    check (any_eq (arr (cons (str "todo-api") (cons (str "BELONGS_TO") nil))) out_labels) ""
    check (any_eq (arr (cons (str "Header-Component") (cons (str "USES_ASSET") nil))) in_labels) ""
    check (value_eq (← item d "edge_count") (int (pos 2))) ""
    path ← ev h "F191" "node-detail.json" d
    pure (path, "Node 'Logo': Typ=asset, Metadaten + 1 aus-/1 eingehende Kante")

  abbrev pub settings : Settings
  settings = record {
    home = none;
    library_dir = some h.root;
    log_path = some "/tmp/b38.log";
    env_extra = end;
    seed_models = true;
  }

  -- The features of `main` in their order.
  abbrev pub claims : List (String × Stateful W (String × String))
  claims = ("F161", f161) ∷ ("F191", f191) ∷ []

  unfoldable pub main : Stateful (Run W) (Unit {0})
  main = probe_main h settings 15 claims
