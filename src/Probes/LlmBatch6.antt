-- ===== src/Probes/LlmBatch6.antt =====
-- test-harness/probes/llm_batch6.py: compliance checks.
use claude_studio.Prelude.{String, true, not, some, List, [], ◌∷◌}
use claude_studio.Prelude.Int.{pos}
use claude_studio.Python.Json.{null, int, str, arr, obj, end, field, truthy}
use claude_studio.Python.Values.{is_false, any_eq}
use claude_studio.Python.Dynamic.{
  from_list, concat, item, get_item, nth, each, within, within_value, both, either, check_or,
  any_of, select_of,
}
use claude_studio.Python.Builtins.{is_dict}
use claude_studio.Python.Stateful.{Stateful, ◌>>=◌, ◌>>◌, pure}
use claude_studio.Probes.Steps.{Settings, Harness, Run, check, ev, shown, probe_main, lowered}

module _ {W : Type 0} (h : Harness W) where
  -- F200 — DSGVO-Audit: Finding mit Datei + Zeile
  unfoldable pub f200 : Stateful W (String × String)
  f200 = do
    proj ← h.mkdtemp "cs-f200-"
    h.write_file (concat (proj ∷ "/server.js" ∷ []))
        "const express = require('express');\nconst app = express();\napp.post('/signup', (req, res) => {\n  console.log('New user email + IP:', req.body.email, req.ip);  // logs personal data\n  db.query(`INSERT INTO users (email) VALUES ('${req.body.email}')`);\n  res.send('ok');\n});\n"
    r ← h.request "compliance.check" (obj (field "cwd" (str proj) (field "kind" (str "dsgvo") end)))
    rep ← item r "report"
    check_or (is_dict rep) (do pure (concat ("keine Findings: " ∷ shown h rep ∷ [])))
    check_or (truthy (← get_item rep "findings"))
        (do pure (concat ("keine Findings: " ∷ shown h rep ∷ [])))
    withloc ← pure (
        arr (
          from_list
            (← select_of
              (λ f. do
                both (do pure (truthy (← get_item f "file")))
                    (do
                      pure (
                          not
                            (any_eq (← get_item f "line") (null ∷ (str "") ∷ (int (pos 0)) ∷ [])))))
              (λ f. do pure (f)) (← each (← item rep "findings")))))
    check_or (truthy withloc)
        (do pure (concat ("kein Finding mit Datei+Zeile: " ∷ shown h (← item rep "findings") ∷ [])))
    blob ← lowered h (str (h.dumps_ascii rep))
    check
        (← any_of (λ k. do within_value k blob)
          ((str "personenbezog")
            ∷ (str "email")
            ∷ (str "consent")
            ∷ (str "einwillig")
            ∷ (str "log")
            ∷ (str "dsgvo")
            ∷ (str "ip")
            ∷ []))
        "kein datenschutzbezogenes Finding"
    path ← ev h "F200" "compliance-dsgvo.json" rep
    pure (
      path,
      concat (
          "DSGVO-Finding mit Datei+Zeile ("
          ∷ shown h (← get_item (← nth withloc 0) "file")
          ∷ ":"
          ∷ shown h (← get_item (← nth withloc 0) "line")
          ∷ ")"
          ∷ []),
    )

  -- F202 — Reverse-Charge: fehlende EU-B2B-Behandlung erkannt
  unfoldable pub f202 : Stateful W (String × String)
  f202 = do
    proj ← h.mkdtemp "cs-f202-"
    h.write_file (concat (proj ∷ "/invoice.js" ∷ []))
        "function buildInvoice(items, customer) {\n  const net = items.reduce((s, i) => s + i.price, 0);\n  const vat = net * 0.19;  // immer 19% deutsche USt\n  return { net, vat, gross: net + vat, customer };\n}\nmodule.exports = { buildInvoice };\n"
    r ←
        h.request "compliance.check"
          (obj (field "cwd" (str proj) (field "kind" (str "reverse_charge") end)))
    rep ← item r "report"
    check_or (is_dict rep) (do pure (concat ("kein Report: " ∷ shown h rep ∷ [])))
    blob ← lowered h (str (h.dumps_ascii rep))
    check
        (← either (do within "reverse" blob)
          (either (do within "steuerschuldner" blob) (do within "13b" blob)))
        "Reverse-Charge nicht thematisiert"
    check_or
        (← either (do pure (is_false (← get_item rep "compliant")))
          (do pure (truthy (← get_item rep "findings"))))
        (do pure (concat ("Mangel nicht erkannt: " ∷ shown h rep ∷ [])))
    path ← ev h "F202" "compliance-reverse-charge.json" rep
    pure (path, "fehlende Reverse-Charge-Behandlung für EU-B2B korrekt erkannt")

  abbrev pub settings : Settings
  settings = record {
    home = some h.user_home;
    library_dir = some h.root;
    log_path = some "/tmp/llm6.log";
    env_extra =
        field "CLAUDESTUDIO_CLAUDE_BIN" (str (concat (h.user_home ∷ "/.local/bin/claude" ∷ [])))
          end;
    seed_models = true;
  }

  -- The features of `main` in their order.
  abbrev pub claims : List (String × Stateful W (String × String))
  claims = ("F200", f200) ∷ ("F202", f202) ∷ []

  unfoldable pub main : Stateful (Run W) (Unit {0})
  main = probe_main h settings 420 claims
