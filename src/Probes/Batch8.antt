-- ===== src/Probes/Batch8.antt =====
-- test-harness/probes/batch8.py: prompt templates, history, chains and the archive's filter.
pub mod F243To246
pub mod F247To158
use claude_studio.Prelude.{String, true, none, some, List, [], ◌∷◌}
use claude_studio.Python.Json.{end}
use claude_studio.Python.Stateful.{Stateful}
use claude_studio.Probes.Steps.{Settings, Harness, Run, probe_main}
use claude_studio.Probes.Batch8.F243To246.{f243, f244, f245, f246}
use claude_studio.Probes.Batch8.F247To158.{f247, f158}

module _ {W : Type 0} (h : Harness W) where
  abbrev pub settings : Settings
  settings = record {
    home = none;
    library_dir = some h.root;
    log_path = some "/tmp/b8.log";
    env_extra = end;
    seed_models = true;
  }

  -- The features of `main` in their order.
  abbrev pub claims : List (String × Stateful W (String × String))
  claims =
      ("F243", f243 h)
      ∷ ("F244", f244 h)
      ∷ ("F245", f245 h)
      ∷ ("F246", f246 h)
      ∷ ("F247", f247 h)
      ∷ ("F158", f158 h)
      ∷ []

  unfoldable pub main : Stateful (Run W) (Unit {0})
  main = probe_main h settings 15 claims
