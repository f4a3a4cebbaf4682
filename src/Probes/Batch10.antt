-- ===== src/Probes/Batch10.antt =====
-- test-harness/probes/batch10.py: environments, rollback, scans, flags and metrics.
pub mod Helpers
pub mod F271To327
pub mod F330To353
use claude_studio.Prelude.{String, true, none, some, List, [], ◌∷◌}
use claude_studio.Python.Json.{end}
use claude_studio.Python.Stateful.{Stateful}
use claude_studio.Probes.Steps.{Settings, Harness, Run, probe_main}
use claude_studio.Probes.Batch10.F271To327.{f271, f273, f274, f276, f327}
use claude_studio.Probes.Batch10.F330To353.{f330, f331, f352, f353}

module _ {W : Type 0} (h : Harness W) where
  abbrev pub settings : Settings
  settings = record {
    home = none;
    library_dir = some h.root;
    log_path = some "/tmp/b10.log";
    env_extra = end;
    seed_models = true;
  }

  -- The features of `main` in their order.
  abbrev pub claims : List (String × Stateful W (String × String))
  claims =
      ("F271", f271 h)
      ∷ ("F273", f273 h)
      ∷ ("F274", f274 h)
      ∷ ("F276", f276 h)
      ∷ ("F327", f327 h)
      ∷ ("F330", f330 h)
      ∷ ("F331", f331 h)
      ∷ ("F352", f352 h)
      ∷ ("F353", f353 h)
      ∷ []

  unfoldable pub main : Stateful (Run W) (Unit {0})
  main = probe_main h settings 15 claims
