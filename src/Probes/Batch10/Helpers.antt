-- ===== src/Probes/Batch10/Helpers.antt =====
-- test-harness/probes/batch10.py: what the features share.
use claude_studio.Prelude.{String, true, false, List, [], ◌∷◌}
use claude_studio.Prelude.Int.{pos}
use claude_studio.Python.Json.{Json, Fields, int, str, end, field}
use claude_studio.Python.Values.{value_eq}
use claude_studio.Python.Dynamic.{concat, item, stripped}
use claude_studio.Python.Builtins.{joined}
use claude_studio.Python.Result.{runtime_error}
use claude_studio.Python.Stateful.{Stateful, raise, ◌>>=◌, ◌>>◌, pure}
use claude_studio.Probes.Steps.{Harness, shown}

-- What git gets in its environment.
abbrev environment : Fields
environment = field "GIT_AUTHOR_NAME" (str "B10") (
    field "GIT_AUTHOR_EMAIL" (str "b10@cs.test") (
      field "GIT_COMMITTER_NAME" (str "B10") (field "GIT_COMMITTER_EMAIL" (str "b10@cs.test") end)))

module _ {W : Type 0} (h : Harness W) where
  -- With `check=True`, as it is always called.
  unfoldable pub git : String → List String → Stateful W Json
  git repo arguments = do
    r ← h.run_process ("git" ∷ "-C" ∷ repo ∷ arguments) environment
    code ← item r "returncode"
    elim (value_eq code (int (pos 0))) [
      | true ↦ (do stripped (← item r "stdout"))
      | false ↦ (do
        text ← stripped (← item r "stderr")
        raise (runtime_error (concat ("git " ∷ joined " " arguments ∷ ": " ∷ shown h text ∷ []))))
    ]

  -- The loop of `repo_with` over the commits: the file's name, its text and the message.
  abbrev commit_all : String → List (String × String × String) → Stateful W (Unit {0})
  commit_all repo [] = pure tt
  commit_all repo ((name, text, message) ∷ rest) =
      h.write_file (concat (repo ∷ "/" ∷ name ∷ [])) text
      >> git repo ("add" ∷ "-A" ∷ [])
      >> git repo ("commit" ∷ "-qm" ∷ message ∷ [])
      >> commit_all repo rest

  unfoldable pub repo_with : String → List (String × String × String) → Stateful W String
  repo_with name commits = do
    repo ← h.mkdtemp (concat ("cs-b10-" ∷ name ∷ "-" ∷ []))
    git repo ("init" ∷ "-q" ∷ "-b" ∷ "main" ∷ [])
    commit_all repo commits
    pure repo
