-- ===== src/Probes/Harness.antt =====
-- What the probe modules of test-harness/probes use that is not their own code.
use claude_studio.Prelude.{ℕ, String, Bool, List}
use claude_studio.Python.Json.{Json, Fields}
use claude_studio.Python.Result.{Exception, Result}
use claude_studio.Python.Stateful.{Stateful}
use claude_studio.Launch.{Settings}

-- What a probe uses of `cs_probe` and of Python: a core that is launched (`running_core` up to its
-- `yield`) and stopped (its `finally`), its home, a client's constructor, requests and `close`;
-- directories, files, the processes that are run (with what their environment has on top of the
-- probe's) and evidence files; the texts of values (`json.dumps`, with and without indentation and
-- `ensure_ascii`, `json.loads`, `repr`, `str`, formats) and of exceptions, `str.lower`, and sums and
-- differences of numbers, which round where one is a float.
pub record Harness (W : Type 0) : Type 0 where
  pub root : String
  pub user_home : String
  pub home : Stateful W String
  pub mkdtemp : String → Stateful W String
  pub mktemp : String → Stateful W String
  pub read_file : String → Stateful W String
  pub write_file : String → String → Stateful W (Unit {0})
  pub file_exists : String → Stateful W Bool
  pub make_dir : String → Stateful W (Unit {0})
  pub run_process : List String → Fields → Stateful W Json
  pub launch : Settings → Stateful W (Unit {0})
  pub stop : W → W
  pub connect : ℕ → Stateful W (Unit {0})
  pub request : String → Json → Stateful W Json
  pub close : W → W
  pub write_evidence : String → String → String → Stateful W String
  pub dumps : Json → String
  pub dumps_ascii : Json → String
  pub pretty : Json → String
  pub pretty_ascii : Json → String
  pub loads : Json → Result Json
  pub repr : Json → String
  pub display : Json → String
  pub lower : String → String
  pub format : String → Json → Result String
  pub plus : Json → Json → Result Json
  pub minus : Json → Json → Result Json
  pub error_text : Exception → String
