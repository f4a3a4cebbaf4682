-- ===== src/Probes/Batch3.antt =====
-- test-harness/probes/batch3.py: trust modes, gates and the permission matrix of the core.
pub mod Helpers
pub mod F286To292
pub mod F293To298
use claude_studio.Prelude.{String, true, none, some, List, [], ◌∷◌}
use claude_studio.Python.Json.{end}
use claude_studio.Python.Stateful.{Stateful}
use claude_studio.Probes.Steps.{Settings, Harness, Run, probe_main}
use claude_studio.Probes.Batch3.F286To292.{f286, f287, f288, f289, f290, f291, f292}
use claude_studio.Probes.Batch3.F293To298.{f293, f294, f295, f297, f299, f298}

module _ {W : Type 0} (h : Harness W) where
  abbrev pub settings : Settings
  settings = record {
    home = none;
    library_dir = some h.root;
    log_path = some "/tmp/b3.log";
    env_extra = end;
    seed_models = true;
  }

  -- The features of `main` in their order.
  abbrev pub claims : List (String × Stateful W (String × String))
  claims =
      ("F286", f286 h)
      ∷ ("F287", f287 h)
      ∷ ("F288", f288 h)
      ∷ ("F289", f289 h)
      ∷ ("F290", f290 h)
      ∷ ("F291", f291 h)
      ∷ ("F292", f292 h)
      ∷ ("F293", f293 h)
      ∷ ("F294", f294 h)
      ∷ ("F295", f295 h)
      ∷ ("F297", f297 h)
      ∷ ("F299", f299 h)
      ∷ ("F298", f298 h)
      ∷ []

  unfoldable pub main : Stateful (Run W) (Unit {0})
  main = probe_main h settings 15 claims
