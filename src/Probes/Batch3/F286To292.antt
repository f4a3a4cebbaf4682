-- ===== src/Probes/Batch3/F286To292.antt =====
-- test-harness/probes/batch3.py: the features F286, F287, F288, F289, F290, F291, F292.
use claude_studio.Prelude.{String, [], ◌∷◌}
use claude_studio.Python.Json.{str, obj, end, field}
use claude_studio.Python.Values.{value_eq, is_true}
use claude_studio.Python.Dynamic.{item, table_of}
use claude_studio.Python.Stateful.{Stateful, ◌>>=◌, ◌>>◌, pure}
use claude_studio.Probes.Steps.{Harness, check, ev, table_json}
use claude_studio.Probes.Batch3.Helpers.{chk}

module _ {W : Type 0} (h : Harness W) where
  -- F286: all four trust modes persist via config.set/get
  unfoldable pub f286 : Stateful W (String × String)
  f286 = do
    seen ←
        table_of
          (λ m. do
            h.request "config.set" (obj (field "trust_mode" m end))
            pure (m, (← item (← h.request "config.get" (obj end)) "trust_mode")))
          ((str "strict") ∷ (str "standard") ∷ (str "auto") ∷ (str "yolo") ∷ []) []
    check
        (value_eq (table_json h seen) (
          obj (
            field "strict" (str "strict") (
              field "standard" (str "standard")
                (field "auto" (str "auto") (field "yolo" (str "yolo") end))))))
        ""
    path ← ev h "F286" "modes.json" (table_json h seen)
    pure (path, "4 Trust-Modi persistieren (Titelleiste=UI)")

  -- F287: strict -> every action asks
  unfoldable pub f287 : Stateful W (String × String)
  f287 = do
    r ← chk h (
        obj (
          field "trust_mode" (str "strict")
            (field "action" (str "read") (field "path" (str "/proj/file.txt") end))))
    check (value_eq (← item r "decision") (str "ask")) ""
    path ← ev h "F287" "strict.json" r
    pure (path, "Strict: jede Aktion -> ask")

  -- F288: standard -> ask for risky (rm), auto for safe (read)
  unfoldable pub f288 : Stateful W (String × String)
  f288 = do
    risky ← chk h (
        obj (
          field "trust_mode" (str "standard") (
            field "action" (str "bash")
              (field "command" (str "rm important.txt") (field "project_root" (str "/proj") end)))))
    safe ← chk h (
        obj (
          field "trust_mode" (str "standard")
            (field "action" (str "read") (field "path" (str "/proj/x") end))))
    check (value_eq (← item risky "decision") (str "ask")) ""
    check (value_eq (← item safe "decision") (str "allow")) ""
    path ← ev h "F288" "standard.json" (obj (field "risky" risky (field "safe" safe end)))
    pure (path, "Standard: rm->ask, read->allow")

  -- F289: auto -> allow normal, but a gate still blocks
  unfoldable pub f289 : Stateful W (String × String)
  f289 = do
    normal ← chk h (
        obj (
          field "trust_mode" (str "auto")
            (field "action" (str "write") (field "path" (str "/proj/x") end))))
    gated ← chk h (
        obj (
          field "trust_mode" (str "auto") (
            field "action" (str "bash") (
              field "command" (str "rm -rf /etc/nginx")
                (field "path" (str "/etc/nginx") (field "project_root" (str "/proj") end))))))
    check (value_eq (← item normal "decision") (str "allow")) ""
    check (value_eq (← item gated "decision") (str "deny")) ""
    check (is_true (← item gated "gate")) ""
    path ← ev h "F289" "auto.json" (obj (field "normal" normal (field "gated" gated end)))
    pure (path, "Auto: allow, aber Gate blockt")

  -- F290: yolo -> allow normal actions
  unfoldable pub f290 : Stateful W (String × String)
  f290 = do
    r ← chk h (
        obj (
          field "trust_mode" (str "yolo")
            (field "action" (str "write") (field "path" (str "/proj/x") end))))
    check (value_eq (← item r "decision") (str "allow")) ""
    path ← ev h "F290" "yolo.json" r
    pure (path, "YOLO: normale Aktion auto (Einmal-Bestätigung=UI)")

  -- F291: push-to-main gate holds even in yolo
  unfoldable pub f291 : Stateful W (String × String)
  f291 = do
    r ← chk h (
        obj (
          field "trust_mode" (str "yolo")
            (field "action" (str "git.push") (field "branch" (str "main") end))))
    ok_branch ← chk h (
        obj (
          field "trust_mode" (str "yolo")
            (field "action" (str "git.push") (field "branch" (str "feature/x") end))))
    check (is_true (← item r "gate")) ""
    check (value_eq (← item r "decision") (str "ask")) ""
    check (value_eq (← item ok_branch "decision") (str "allow")) ""
    path ← ev h "F291" "push-main.json" (obj (field "main" r (field "feature" ok_branch end)))
    pure (path, "Push auf main hält selbst im YOLO an")

  -- F292: rm -rf outside project gate holds in yolo
  unfoldable pub f292 : Stateful W (String × String)
  f292 = do
    r ← chk h (
        obj (
          field "trust_mode" (str "yolo") (
            field "action" (str "bash") (
              field "command" (str "rm -rf /Users/other/data") (
                field "path" (str "/Users/other/data") (field "project_root" (str "/proj") end))))))
    inside ← chk h (
        obj (
          field "trust_mode" (str "yolo") (
            field "action" (str "bash") (
              field "command" (str "rm -rf build")
                (field "path" (str "/proj/build") (field "project_root" (str "/proj") end))))))
    check (value_eq (← item r "decision") (str "deny")) ""
    check (is_true (← item r "gate")) ""
    check (value_eq (← item inside "decision") (str "allow")) ""
    path ← ev h "F292" "rmrf.json" (obj (field "outside" r (field "inside" inside end)))
    pure (path, "rm -rf außerhalb Projektpfad gestoppt (YOLO)")
