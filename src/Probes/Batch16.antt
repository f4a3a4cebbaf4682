-- ===== src/Probes/Batch16.antt =====
-- test-harness/probes/batch16.py: context, memory, definitions, cost and settings.
pub mod Helpers
pub mod F81To279
pub mod F284To113
pub mod F272To282
use claude_studio.Prelude.{true, none, some, [], ◌∷◌}
use claude_studio.Python.Json.{obj, end}
use claude_studio.Python.Stateful.{Stateful, ◌>>=◌, ◌>>◌}
use claude_studio.Probes.Steps.{
  Settings, Harness, Run, close, in_core, on_world, attempts, attempt_each, print_results,
}
use claude_studio.Probes.Batch16.F81To279.{f081, f080, f082, f088, f093, f098, f279}
use claude_studio.Probes.Batch16.F284To113.{f284, f270, f345, f067, f100_f111_f112_f113}
use claude_studio.Probes.Batch16.F272To282.{f272, f280, f282}

module _ {W : Type 0} (h : Harness W) where
  abbrev pub settings : Settings
  settings = record {
    home = none;
    library_dir = some h.root;
    log_path = some "/tmp/b16.log";
    env_extra = end;
    seed_models = true;
  }

  unfoldable pub features : Stateful (Run W) (Unit {0})
  features = do
    on_world h (h.connect 15)
    on_world h (do h.request "library.load_defaults" (obj end))
    attempts h (
        ("F081", f081 h)
        ∷ ("F080", f080 h)
        ∷ ("F082", f082 h)
        ∷ ("F088", f088 h)
        ∷ ("F093", f093 h)
        ∷ ("F098", f098 h)
        ∷ ("F279", f279 h)
        ∷ ("F284", f284 h)
        ∷ ("F270", f270 h)
        ∷ ("F345", f345 h)
        ∷ ("F067", f067 h)
        ∷ [])
    attempt_each h ("F100" ∷ "F111" ∷ "F112" ∷ "F113" ∷ []) (f100_f111_f112_f113 h)
    attempts h (("F272", f272 h) ∷ ("F280", f280 h) ∷ ("F282", f282 h) ∷ [])
    on_world h (close h)

  unfoldable pub main : Stateful (Run W) (Unit {0})
  main = do in_core h settings features; print_results h
