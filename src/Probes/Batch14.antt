-- ===== src/Probes/Batch14.antt =====
-- test-harness/probes/batch14.py: the knowledge graph and the co-pilot.
pub mod F186To195
pub mod F217To225
use claude_studio.Prelude.{true, none, some, [], ◌∷◌}
use claude_studio.Python.Json.{end}
use claude_studio.Python.Stateful.{Stateful, ◌>>=◌, ◌>>◌}
use claude_studio.Probes.Steps.{
  Settings, Harness, Run, close, in_core, on_world, attempts, attempt_each, print_results,
}
use claude_studio.Probes.Batch14.F186To195.{f186_f187, f188, f192, f193, f194, f195}
use claude_studio.Probes.Batch14.F217To225.{f217_f218_f220, f221, f222, f223, f224, f225}

module _ {W : Type 0} (h : Harness W) where
  abbrev pub settings : Settings
  settings = record {
    home = none;
    library_dir = some h.root;
    log_path = some "/tmp/b14.log";
    env_extra = end;
    seed_models = true;
  }

  unfoldable pub features : Stateful (Run W) (Unit {0})
  features = do
    on_world h (h.connect 15)
    attempt_each h ("F186" ∷ "F187" ∷ []) (f186_f187 h)
    attempts h (
        ("F188", f188 h)
        ∷ ("F192", f192 h)
        ∷ ("F193", f193 h)
        ∷ ("F194", f194 h)
        ∷ ("F195", f195 h)
        ∷ [])
    attempt_each h ("F217" ∷ "F218" ∷ "F220" ∷ []) (f217_f218_f220 h)
    attempts h (
        ("F221", f221 h)
        ∷ ("F222", f222 h)
        ∷ ("F223", f223 h)
        ∷ ("F224", f224 h)
        ∷ ("F225", f225 h)
        ∷ [])
    on_world h (close h)

  unfoldable pub main : Stateful (Run W) (Unit {0})
  main = do in_core h settings features; print_results h
