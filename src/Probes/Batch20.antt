-- ===== src/Probes/Batch20.antt =====
-- test-harness/probes/batch20.py: the tools of the built-in MCP server.
use claude_studio.Prelude.{String, true, none, some, [], ◌∷◌, if◌then◌else◌}
use claude_studio.Prelude.Int.{pos}
use claude_studio.Python.Json.{Json, int, str, obj, end, field, truthy}
use claude_studio.Python.Values.{value_eq, is_true, set_of, is_subset}
use claude_studio.Python.Dynamic.{
  concat, item, get_item, each, len, at_least, within, either, hashed, next_of, map_of,
}
use claude_studio.Python.Stateful.{Stateful, ◌>>=◌, ◌>>◌, pure}
use claude_studio.Probes.Steps.{
  Settings, Harness, Run, check, ev, shown, close, in_core, on_world, attempts, print_results,
  rescue,
}

module _ {W : Type 0} (h : Harness W) where
  -- F253 tool-explorer: tools listed with name + description + parameters
  unfoldable pub f253 : Json → Stateful W (String × String)
  f253 r = do
    tools ← item r "tools"
    names ← pure (set_of (← map_of (λ t. do hashed (← get_item t "name")) (← each tools)))
    check
        (is_subset ((str "search_sessions") ∷ (str "session_stats") ∷ (str "list_sessions") ∷ [])
          names)
        ""
    sample ←
        next_of (λ t. do pure (value_eq (← item t "name") (str "search_sessions"))) (← each tools)
    check (truthy (← get_item sample "description")) ""
    check
        (← either (do pure (truthy (← get_item sample "inputSchema")))
          (do pure (truthy (← get_item sample "input_schema"))))
        ""
    path ← ev h "F253" "tool-explorer.json" tools
    pure (
      path,
      concat (shown h (← len tools) ∷ " MCP-Tools mit Beschreibung+Parametern gelistet" ∷ []),
    )

  -- F252 /mcp status: connection state reflected
  unfoldable pub f252 : Json → Stateful W (String × String)
  f252 r = do
    check (is_true (← item r "connected")) ""
    path ← ev h "F252" "status.json" (
        obj (
          field "connected" (← item r "connected")
            (field "tool_count" (← item r "tool_count") end)))
    pure (path, "MCP-Verbindungszustand: connected")

  -- F248 overview card data: name / transport / status / tool-count
  unfoldable pub f248 : Json → Stateful W (String × String)
  f248 r = do
    card ← pure (
        obj (
          field "name" (str "builtin-sessions") (
            field "transport" (str "stdio") (
              field "status"
                (if truthy (← item r "connected") then str "connected" else str "disconnected")
                (field "tool_count" (← item r "tool_count") end)))))
    check (value_eq (← item card "transport") (str "stdio")) ""
    check (value_eq (← item card "status") (str "connected")) ""
    check (← at_least (← item card "tool_count") (int (pos 4))) ""
    path ← ev h "F248" "overview-card.json" card
    pure (path, "MCP-Übersicht: Name/Transport/Status/Tool-Anzahl (Daten; Karte=UI)")

  -- Supporting: a REAL MCP tools/call against the built-in server.
  unfoldable pub real_tools_call : Json → Stateful W (Unit {0})
  real_tools_call r =
      rescue h
        (do
          call ←
              h.request "mcp.call_tool"
                (obj (field "name" (str "session_stats") (field "arguments" (obj end) end)))
          res ← item call "result"
          let text_reply : String = h.dumps_ascii res
          check
              (← either (do within "sessions" (str text_reply))
                (do within "tool_calls" (str text_reply)))
              ""
          h.write_evidence "F253" "real-tools-call.json"
              (h.pretty_ascii (obj (field "call" (str "session_stats") (field "result" res end))))
          pure tt)
        (λ message. do h.write_evidence "F253" "real-tools-call-error.txt" message; pure tt)

  abbrev pub settings : Settings
  settings = record {
    home = none;
    library_dir = some h.root;
    log_path = some "/tmp/b20.log";
    env_extra = end;
    seed_models = true;
  }

  unfoldable pub features : Stateful (Run W) (Unit {0})
  features = do
    on_world h (h.connect 15)
    r ← on_world h (do h.request "mcp.tools" (obj end))
    attempts h (("F253", f253 r) ∷ ("F252", f252 r) ∷ ("F248", f248 r) ∷ [])
    on_world h (real_tools_call r)
    on_world h (close h)

  unfoldable pub main : Stateful (Run W) (Unit {0})
  main = do in_core h settings features; print_results h
