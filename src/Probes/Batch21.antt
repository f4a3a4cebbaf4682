-- ===== src/Probes/Batch21.antt =====
-- test-harness/probes/batch21.py: private sessions and the allowlist of servers.
use claude_studio.Prelude.{String, true, not, none, some, List, [], ◌∷◌}
use claude_studio.Prelude.Int.{pos}
use claude_studio.Python.Json.{Json, bool, float, str, arr, obj, nil, cons, end, field}
use claude_studio.Python.Values.{value_eq, is_true, is_false, any_eq, set_of}
use claude_studio.Python.Dynamic.{
  concat, item, prefix, each, greater, within, within_value, hashed, all_of, map_of,
}
use claude_studio.Python.Builtins.{refused, repeated, path_of}
use claude_studio.Python.Stateful.{Stateful, ◌>>=◌, ◌>>◌, pure, lift}
use claude_studio.Probes.Steps.{Settings, Harness, Run, check, ev, probe_main}

module _ {W : Type 0} (h : Harness W) where
  -- F165 privacy mode: AES-256 + gzip + list exclusion + decrypt roundtrip
  unfoldable pub f165 : Stateful W (String × String)
  f165 = do
    let mark : Json = str "SECRET-CREDENTIAL-TOKEN-9931"
    let transcript : String =
        repeated 400 (concat ("User: hier ist mein " ∷ "SECRET-CREDENTIAL-TOKEN-9931" ∷ "\n" ∷ []))
    sid ←
        item
          (← h.request "session.create"
            (obj (field "title" (str "private case") (field "cwd" (str (h.root)) end))))
          "id"
    setp ← h.request "session.set_private" (
        obj (
          field "session_id" sid
            (field "content" (str transcript) (field "key" (str "geheim") end))))
    raw ← pure (str (← h.read_file (← lift (path_of (← item setp "encrypted_path")))))
    check (not (← within "SECRET-CREDENTIAL-TOKEN-9931" raw)) ""
    check (← all_of (λ ch. do within_value ch (str "0123456789abcdef")) (← each (← prefix raw 64)))
        ""
    check (← greater (← item setp "gzip_ratio") (float (pos 3152519739159347) 52)) ""
    default_ids ← pure (
        set_of
          (← map_of (λ s. do hashed (← item s "id"))
            (← each (← item (← h.request "session.list" (obj end)) "sessions"))))
    withpriv_ids ← pure (
        set_of
          (← map_of (λ s. do hashed (← item s "id"))
            (← each
              (← item (← h.request "session.list" (obj (field "include_private" (bool true) end)))
                "sessions"))))
    check (not (any_eq sid default_ids)) ""
    check (any_eq sid withpriv_ids) ""
    back ←
        item
          (← h.request "session.get_private"
            (obj (field "session_id" sid (field "key" (str "geheim") end))))
          "content"
    check (value_eq back (str transcript)) ""
    wrong ← refused (do
      h.request "session.get_private"
          (obj (field "session_id" sid (field "key" (str "falsch") end))))
    check wrong "wrong key should fail to decrypt"
    path ← ev h "F165" "privacy.json" (
        obj (
          field "gzip_ratio" (← item setp "gzip_ratio") (
            field "raw_excerpt" (← prefix raw 80) (
              field "excluded_from_default" (bool true)
                (field "roundtrip_ok" (bool true) (field "wrong_key_rejected" (bool true) end))))))
    pure (
      path,
      concat (
          "AES-256+gzip ("
          ∷ (← lift (h.format ".0%" (← item setp "gzip_ratio")))
          ∷ "), aus Standardliste ausgeschlossen, Roundtrip exakt"
          ∷ []),
    )

  -- F254 MCP allowlist (+ agent tool assignment available)
  unfoldable pub f254 : Stateful W (String × String)
  f254 = do
    h.request "mcp.allowlist_set"
        (obj (field "servers" (arr (cons (str "github") (cons (str "playwright") nil))) end))
    allowed ← h.request "mcp.check_server" (obj (field "name" (str "github") end))
    blocked ← h.request "mcp.check_server" (obj (field "name" (str "evil-exfil") end))
    check (is_true (← item allowed "allowed")) ""
    check (is_false (← item blocked "allowed")) ""
    check (← within "blockiert" (← item blocked "reason")) ""
    aid ←
        item
          (← h.request "agents.create" (
            obj (
              field "name" (str "ToolAgent") (
                field "allowed_tools"
                  (arr (cons (str "github_create_issue") (cons (str "Read") nil))) end))))
          "id"
    tool_ok ←
        h.request "agents.check_tool"
          (obj (field "id" aid (field "tool" (str "github_create_issue") end)))
    check (is_true (← item tool_ok "allowed")) ""
    path ←
        ev h "F254" "allowlist.json"
          (obj (field "allowed" allowed (field "blocked" blocked (field "agent_tool" tool_ok end))))
    pure (path, "zugewiesenes Tool verfügbar; nicht-gelisteter Server blockiert")

  abbrev pub settings : Settings
  settings = record {
    home = none;
    library_dir = some h.root;
    log_path = some "/tmp/b21.log";
    env_extra = end;
    seed_models = true;
  }

  -- The features of `main` in their order.
  abbrev pub claims : List (String × Stateful W (String × String))
  claims = ("F165", f165) ∷ ("F254", f254) ∷ []

  unfoldable pub main : Stateful (Run W) (Unit {0})
  main = probe_main h settings 15 claims
