-- ===== src/Probes/Batch14/F186To195.antt =====
-- test-harness/probes/batch14.py: the features F186, F187, F188, F192, F193, F194, F195.
use claude_studio.Prelude.{String, [], ◌∷◌}
use claude_studio.Prelude.Int.{pos}
use claude_studio.Python.Json.{int, str, obj, end, field}
use claude_studio.Python.Values.{value_eq, is_true, set_of, is_subset}
use claude_studio.Python.Dynamic.{item, each, at_least, hashed, any_of, map_of}
use claude_studio.Python.Stateful.{Stateful, ◌>>=◌, ◌>>◌, pure}
use claude_studio.Probes.Steps.{Harness, Run, check, ev, on_world, record_result}

module _ {W : Type 0} (h : Harness W) where
  -- F186 / F187 type definitions
  unfoldable pub f186_f187 : Stateful (Run W) (Unit {0})
  f186_f187 = do
    nt ← on_world h (do item (← h.request "graph.node_types" (obj end)) "node_types")
    et ← on_world h (do item (← h.request "graph.edge_types" (obj end)) "edge_types")
    on_world h (do
      check
          (is_subset
            ((str "project") ∷ (str "asset") ∷ (str "error_pattern") ∷ (str "concept") ∷ [])
            (set_of (← map_of hashed (← each nt))))
          "")
    path ← on_world h (ev h "F186" "node-types.json" nt)
    record_result h "F186" "pass" path "7 Node-Typen definiert"
    on_world h (do
      check
          (is_subset
            ((str "BELONGS_TO")
              ∷ (str "RESOLVED_BY")
              ∷ (str "DEPENDS_ON")
              ∷ (str "USES_ASSET")
              ∷ [])
            (set_of (← map_of hashed (← each et))))
          "")
    path ← on_world h (ev h "F187" "edge-types.json" et)
    record_result h "F187" "pass" path "9 Edge-Typen definiert"

  -- F188 asset node + BELONGS_TO edge + export verify
  unfoldable pub f188 : Stateful W (String × String)
  f188 = do
    proj ←
        item
          (← h.request "graph.add_node"
            (obj (field "type" (str "project") (field "label" (str "Abrevia") end))))
          "id"
    asset ←
        item
          (← h.request "graph.add_node" (
            obj (
              field "type" (str "asset") (
                field "label" (str "logo.svg")
                  (field "props" (obj (field "path" (str "/abrevia/logo.svg") end)) end)))))
          "id"
    h.request "graph.add_edge"
        (obj (field "from" asset (field "to" proj (field "type" (str "BELONGS_TO") end))))
    exp ← h.request "graph.export" (obj end)
    check (← at_least (← item exp "node_count") (int (pos 2))) ""
    check (← at_least (← item exp "edge_count") (int (pos 1))) ""
    check
        (← any_of (λ e. do pure (value_eq (← item e "type") (str "BELONGS_TO")))
          (← each (← item (← item exp "graph") "edges")))
        ""
    path ← ev h "F188" "graph-export.json" exp
    pure (path, "Asset-Node + BELONGS_TO im Export verifiziert")

  -- F192 live search filters nodes
  unfoldable pub f192 : Stateful W (String × String)
  f192 = do
    r ← h.request "graph.search" (obj (field "query" (str "logo") end))
    check
        (← any_of (λ n. do pure (value_eq (← item n "label") (str "logo.svg")))
          (← each (← item r "nodes")))
        ""
    path ← ev h "F192" "search.json" r
    pure (path, "Graph-Suche filtert auf passende Nodes")

  -- F193 timeline: graph state as of a date
  unfoldable pub f193 : Stateful W (String × String)
  f193 = do
    none_yet ← item (← h.request "graph.at" (obj (field "date_ms" (int (pos 1)) end))) "node_count"
    all_now ←
        item (← h.request "graph.at" (obj (field "date_ms" (int (pos 9999999999999)) end)))
          "node_count"
    check (value_eq none_yet (int (pos 0))) ""
    check (← at_least all_now (int (pos 2))) ""
    path ←
        ev h "F193" "timeline.json"
          (obj (field "as_of_epoch1" none_yet (field "as_of_now" all_now end)))
    pure (path, "Graphzustand zu Datum (Zeitachsen-Daten; Slider=UI)")

  -- F194 NL asset query via BELONGS_TO
  unfoldable pub f194 : Stateful W (String × String)
  f194 = do
    r ←
        h.request "graph.query_asset"
          (obj (field "project" (str "Abrevia") (field "asset" (str "logo") end)))
    check (is_true (← item r "found")) ""
    check (value_eq (← item (← item r "asset") "label") (str "logo.svg")) ""
    path ← ev h "F194" "query-asset.json" r
    pure (path, "'Logo aus Projekt X' via BELONGS_TO gefunden")

  -- F195 NL remember -> node + edge
  unfoldable pub f195 : Stateful W (String × String)
  f195 = do
    h.request "graph.remember"
        (obj (field "text" (str "Merke dir dass /assets/logo.svg zu Bachl Systems gehört.") end))
    r ←
        h.request "graph.query_asset"
          (obj (field "project" (str "Bachl Systems") (field "asset" (str "logo") end)))
    check (is_true (← item r "found")) ""
    path ← ev h "F195" "remember.json" r
    pure (path, "NL legt Node + BELONGS_TO-Edge an")
