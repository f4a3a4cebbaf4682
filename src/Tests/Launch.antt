-- ===== src/Tests/Launch.antt =====
-- A launch of the core whose socket is there after one pause.
use claude_studio.Prelude.{ℕ, ◌≡◌, refl, true, false, none, some, List, [], ◌∷◌, ◌++◌, ltb, arith}
use claude_studio.Python.Json.{end}
use claude_studio.Python.Result.{Result, ok}
use claude_studio.Launch.{
  Settings, Effect, Site, sleep, started, prepare, open_log_file, cleanup, running_core,
}
use claude_studio.Launch.Cleanup.{pauses, running_core-runs}

abbrev site : Site
site = record {
  temp = "/tmp/probe";
  environ = end;
  has_models = true;
  has_link = false;
  has_socket = false;
  core_bin = "/repo/core";
  has_core = true;
  start_fails = none;
  appears = λ k. ltb 0 k;
  polled = λ k. none;
  wait_times_out = false;
}

abbrev settings : Settings
settings = record {
  home = none;
  library_dir = none;
  log_path = some "/tmp/log";
  env_extra = end;
  seed_models = true;
}

abbrev body : Result ℕ × List Effect
body = (ok 7, [])

running_core-runs_example : running_core site settings body ≡ (
  ok 7,
  prepare site settings
      ++ open_log_file settings
      ++ started site settings ∷ (pauses 1 ++ sleep 200 ∷ [])
      ++ []
      ++ cleanup site settings,
)
running_core-runs_example =
    running_core-runs site settings body refl refl 1 (omega arith) (refl, refl, refl) refl
