-- ===== src/Probes/Batch13.antt =====
-- test-harness/probes/batch13.py: messages between agents, teams, tasks and checks.
pub mod F125To342
pub mod F333To350
use claude_studio.Prelude.{true, none, some, [], ◌∷◌}
use claude_studio.Python.Json.{end}
use claude_studio.Python.Stateful.{Stateful, ◌>>=◌, ◌>>◌}
use claude_studio.Probes.Steps.{
  Settings, Harness, Run, close, in_core, on_world, attempts, attempt_each, print_results,
}
use claude_studio.Probes.Batch13.F125To342.{f125_f127, f122, f129, f211, f342}
use claude_studio.Probes.Batch13.F333To350.{f333, f323, f326, f350}

module _ {W : Type 0} (h : Harness W) where
  abbrev pub settings : Settings
  settings = record {
    home = none;
    library_dir = some h.root;
    log_path = some "/tmp/b13.log";
    env_extra = end;
    seed_models = true;
  }

  unfoldable pub features : Stateful (Run W) (Unit {0})
  features = do
    on_world h (h.connect 15)
    attempt_each h ("F125" ∷ "F127" ∷ []) (f125_f127 h)
    attempts h (
        ("F122", f122 h)
        ∷ ("F129", f129 h)
        ∷ ("F211", f211 h)
        ∷ ("F342", f342 h)
        ∷ ("F333", f333 h)
        ∷ ("F323", f323 h)
        ∷ ("F326", f326 h)
        ∷ ("F350", f350 h)
        ∷ [])
    on_world h (close h)

  unfoldable pub main : Stateful (Run W) (Unit {0})
  main = do in_core h settings features; print_results h
