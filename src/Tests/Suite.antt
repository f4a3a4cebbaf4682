-- ===== src/Tests/Suite.antt =====
-- The theorems on the probe modules at a core that gives one reply to every request.
use claude_studio.Prelude.{ℕ, ◌≡◌, refl, inl, String, false, Option, some, List, [], ◌∷◌, ◌++◌, map}
use claude_studio.Python.Json.{Json, obj, end, field, lookup}
use claude_studio.Python.Result.{ok, err, type_error}
use claude_studio.Python.Text.{strip, starts_with, contains}
use claude_studio.Features.{Feature}
use claude_studio.Runner.{Outcome, run_main}
use claude_studio.Runner.Marks.{promoted}
use claude_studio.Probes.Steps.{Harness, probe_main, attempt_each}
use claude_studio.Probes.Steps.Verdicts.{verdict}
use claude_studio.Probes.Steps.Passes.{
  Claims, world_after, probe_main-verdict, probe_main-prints, probe_main_refused,
}
use claude_studio.Probes.Steps.Shared.{filled, attempt_each-reported}
use claude_studio.Probes.Steps.Reports.{AreReports, probe_main-AreReports}
use claude_studio.Probes.Suite.{Probe, ran, any_passes, run_main-passes}
use claude_studio.Probes.Batch5.{claims, settings, f302, f303, f310}
use claude_studio.Probes.Batch13.F125To342.{f125_f127}
use claude_studio.Tests.Core.{core, counting, same_reply, up, begin}

abbrev before : Claims ℕ
before = ("F310", f310 up) ∷ []

abbrev after : Claims ℕ
after = ("F303", f303 up) ∷ []

probe_main-verdict_example :
    let all = before ++ ("F302", f302 up) ∷ after in
    ((probe_main up (settings up) 15 all begin).0 ≡ ok tt)
    × (lookup "F302" (probe_main up (settings up) 15 all begin).1.results
        ≡ some (verdict up (f302 up (world_after before 0)).0))
probe_main-verdict_example =
    probe_main-verdict up (settings up) 15 begin before "F302" (f302 up) after refl refl refl

probe_main-prints_example :
    let s = (probe_main up (settings up) 15 (claims up) begin).1 in
    (s.printed ≡ [] ++ up.dumps (obj (field "results" (obj s.results) end)) ∷ [])
    × (s.world ≡ world_after (claims up) 0)
probe_main-prints_example = probe_main-prints up (settings up) 15 begin (claims up) refl refl

abbrev down : Harness ℕ
down = core (err type_error) (counting same_reply)

probe_main_refused_example :
    let (r, s) = probe_main down (settings down) 15 (claims down) begin in
    (r ≡ err type_error) × (s.results ≡ end) × (s.printed ≡ []) × (s.world ≡ 0)
probe_main_refused_example =
    probe_main_refused down (settings down) 15 begin (claims down) type_error (inl refl)

attempt_each-reported_example :
    let s = (attempt_each up ("F125" ∷ "F127" ∷ []) (f125_f127 up) begin).1 in
    ((attempt_each up ("F125" ∷ "F127" ∷ []) (f125_f127 up) begin).0 ≡ ok tt)
    × (s.world ≡ (f125_f127 up begin).1.world)
    × (lookup "F127" s.results ≡ elim (f125_f127 up begin).0 [
      | ok _ ↦ lookup "F127" (f125_f127 up begin).1.results
      | err e ↦
          filled "F127" ("F125" ∷ "F127" ∷ []) (up.error_text e) (f125_f127 up begin).1.results
    ])
attempt_each-reported_example =
    attempt_each-reported up ("F125" ∷ "F127" ∷ []) (f125_f127 up) begin "F127"

probe_main-AreReports_example :
    AreReports (probe_main up (settings up) 15 (claims up) begin).1.results
probe_main-AreReports_example = probe_main-AreReports up (settings up) 15 (claims up) begin tt

abbrev probe : Probe ℕ
probe = record {
  name = "batch5";
  harness = up;
  settings = settings up;
  timeout = 15;
  claims = claims up;
  world = 0;
}

-- The text that is printed is read back as the results.
abbrev loads : String → Option Json
loads s =
    some
      (obj (field "results" (obj (probe_main up (settings up) 15 (claims up) begin).1.results) end))

abbrev features : List Feature
features = record { id = "F302"; passes = false; others = end } ∷ []

run_main-passes_example :
    (out : Outcome) × (run_main false (map (ran loads) (probe ∷ [])) features ≡ ok out)
    × (out.features ≡ promoted (λ k. any_passes loads k (probe ∷ [])) features)
unfolding strip starts_with contains
run_main-passes_example =
    run_main-passes loads (probe ∷ []) features ((refl, refl, refl, refl, refl), tt)
