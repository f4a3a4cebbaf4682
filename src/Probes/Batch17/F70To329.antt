-- ===== src/Probes/Batch17/F70To329.antt =====
-- test-harness/probes/batch17.py: the features F070, F296, F317, F328, F329.
use claude_studio.Prelude.{String, [], ◌∷◌}
use claude_studio.Prelude.Int.{pos}
use claude_studio.Python.Json.{Json, bool, int, str, arr, obj, nil, cons, end, field}
use claude_studio.Python.Values.{value_eq, is_true, is_false, any_eq, set_of}
use claude_studio.Python.Dynamic.{concat, item, each, len, within, hashed, map_of}
use claude_studio.Python.Builtins.{refused_with}
use claude_studio.Python.Stateful.{Stateful, ◌>>=◌, ◌>>◌, pure}
use claude_studio.Probes.Steps.{Harness, check, ev}
use claude_studio.Probes.Batch17.Helpers.{git}

module _ {W : Type 0} (h : Harness W) where
  -- F070 worktree max-parallel limit
  unfoldable pub f070 : Stateful W (String × String)
  f070 = do
    repo ← h.mkdtemp "cs-b17-wt-"
    git h repo ("init" ∷ "-q" ∷ "-b" ∷ "main" ∷ [])
    h.write_file (concat (repo ∷ "/a" ∷ [])) "x"
    git h repo ("add" ∷ "-A" ∷ [])
    git h repo ("commit" ∷ "-qm" ∷ "i" ∷ [])
    ok_reply ← h.request "worktree.add" (
        obj (
          field "cwd" (str repo) (
            field "path" (str (concat (repo ∷ "-w1" ∷ [])))
              (field "branch" (str "f1") (field "max_parallel" (int (pos 2)) end)))))
    blocked ←
        refused_with
          (do
            h.request "worktree.add" (
                obj (
                  field "cwd" (str repo) (
                    field "path" (str (concat (repo ∷ "-w2" ∷ [])))
                      (field "branch" (str "f2") (field "max_parallel" (int (pos 2)) end))))))
          (λ message. do within "Limit" message)
    check (is_true (← item ok_reply "ok")) ""
    check blocked ""
    path ←
        ev h "F070" "wt-limit.json"
          (obj (field "first_ok" ok_reply (field "second_blocked" (bool blocked) end)))
    pure (path, "Max-Parallel-Limit erzwungen, 5. (hier 2.) Worktree blockiert")

  -- F296 user/project settings merge with source
  unfoldable pub f296 : Stateful W (String × String)
  f296 = do
    cwd ← h.mkdtemp "cs-b17-merge-"
    h.make_dir (concat (cwd ∷ "/.claude" ∷ []))
    h.write_file (concat (cwd ∷ "/.claude/settings.json" ∷ []))
        "{\"model\":\"opus\",\"projectOnly\":true}"
    home_reply ← h.home
    h.make_dir (concat (home_reply ∷ "/.claude" ∷ []))
    h.write_file (concat (home_reply ∷ "/.claude/settings.json" ∷ []))
        "{\"model\":\"sonnet\",\"userOnly\":true}"
    r ← h.request "settings.merge" (obj (field "cwd" (str cwd) end))
    check (value_eq (← item (← item r "effective") "model") (str "opus")) ""
    check (value_eq (← item (← item r "source") "model") (str "project")) ""
    check (value_eq (← item (← item r "source") "userOnly") (str "user")) ""
    check (value_eq (← item (← item r "source") "projectOnly") (str "project")) ""
    path ← ev h "F296" "merge.json" r
    pure (path, "User/Projekt-Settings gemerged, Quelle sichtbar")

  -- F317 CVE scanner
  unfoldable pub f317 : Stateful W (String × String)
  f317 = do
    r ← h.request "cve.scan" (
        obj (
          field "deps"
            (arr (
              cons (obj (field "name" (str "lodash") (field "version" (str "4.17.0") end))) (
                cons (obj (field "name" (str "lodash") (field "version" (str "4.17.21") end))) (
                  cons (obj (field "name" (str "react") (field "version" (str "18.0.0") end)))
                    nil))))
            end))
    cves ← pure (set_of (← map_of (λ f. do hashed (← item f "cve")) (← each (← item r "findings"))))
    check (any_eq (str "CVE-2021-23337") cves) ""
    check (value_eq (← len (← item r "findings")) (int (pos 1))) ""
    path ← ev h "F317" "cve.json" r
    pure (path, "verwundbare Dependency gegen Advisory-DB gemeldet")

  -- F328 IaC validator
  unfoldable pub f328 : Stateful W (String × String)
  f328 = do
    good ← h.request "iac.validate" (
        obj (
          field "type" (str "terraform") (
            field "content" (str "resource \"aws_s3_bucket\" \"b\" {\n  bucket = \"x\"\n}\n") end)))
    bad ←
        h.request "iac.validate"
          (obj (field "type" (str "terraform") (field "content" (str "locals {\n  x = 1\n") end)))
    check (is_true (← item good "valid")) ""
    check (is_false (← item bad "valid")) ""
    path ← ev h "F328" "iac.json" (obj (field "good" good (field "bad" bad end)))
    pure (path, "Terraform validiert (Syntax/Block)")

  -- F329 Docker optimizer
  unfoldable pub f329 : Stateful W (String × String)
  f329 = do
    let df : Json =
        str "FROM node:20\nRUN apt-get update\nRUN apt-get install -y git\nRUN npm ci\nCOPY . .\n"
    r ← h.request "docker.optimize" (obj (field "dockerfile" df end))
    rules_reply ←
        pure
          (set_of (← map_of (λ s. do hashed (← item s "rule")) (← each (← item r "suggestions"))))
    check (any_eq (str "combine-run") rules_reply) ""
    check (any_eq (str "slim-base") rules_reply) ""
    path ← ev h "F329" "docker.json" r
    pure (path, "Dockerfile-Optimierungen vorgeschlagen")
