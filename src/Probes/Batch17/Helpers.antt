-- ===== src/Probes/Batch17/Helpers.antt =====
-- test-harness/probes/batch17.py: what the features share.
use claude_studio.Prelude.{String, List, ◌∷◌}
use claude_studio.Python.Json.{Fields, str, end, field}
use claude_studio.Python.Stateful.{Stateful, ◌>>◌, pure}
use claude_studio.Probes.Steps.{Harness}

-- What git gets in its environment.
abbrev environment : Fields
environment = field "GIT_AUTHOR_NAME" (str "B17") (
    field "GIT_AUTHOR_EMAIL" (str "b17@cs.test") (
      field "GIT_COMMITTER_NAME" (str "B17") (field "GIT_COMMITTER_EMAIL" (str "b17@cs.test") end)))

module _ {W : Type 0} (h : Harness W) where
  unfoldable pub git : String → List String → Stateful W (Unit {0})
  git repo arguments = do h.run_process ("git" ∷ "-C" ∷ repo ∷ arguments) environment; pure tt
