-- ===== src/Probes/Batch17.antt =====
-- test-harness/probes/batch17.py: worktrees, merged settings, scanners, resume and fallback.
pub mod Helpers
pub mod F70To329
pub mod F335To360
use claude_studio.Prelude.{true, none, some, [], ◌∷◌}
use claude_studio.Python.Json.{end}
use claude_studio.Python.Stateful.{Stateful, ◌>>=◌, ◌>>◌}
use claude_studio.Probes.Steps.{
  Settings, Harness, Run, close, in_core, on_world, attempts, print_results, attempt_with,
}
use claude_studio.Probes.Batch17.F70To329.{f070, f296, f317, f328, f329}
use claude_studio.Probes.Batch17.F335To360.{f335, f343, f354, f355, f360}

module _ {W : Type 0} (h : Harness W) where
  abbrev pub settings : Settings
  settings = record {
    home = none;
    library_dir = some h.root;
    log_path = some "/tmp/b17.log";
    env_extra = end;
    seed_models = true;
  }

  unfoldable pub features : Stateful (Run W) (Unit {0})
  features = do
    on_world h (h.connect 15)
    attempts h (
        ("F070", f070 h)
        ∷ ("F296", f296 h)
        ∷ ("F317", f317 h)
        ∷ ("F328", f328 h)
        ∷ ("F329", f329 h)
        ∷ ("F335", f335 h)
        ∷ ("F343", f343 h)
        ∷ ("F354", f354 h)
        ∷ ("F355", f355 h)
        ∷ [])
    attempt_with h "F360" (f360 h)
    on_world h (close h)

  unfoldable pub main : Stateful (Run W) (Unit {0})
  main = do in_core h settings features; print_results h
