-- ===== src/Tests/Meaning.antt =====
-- What passed features say of the core, at concrete cores.
use claude_studio.Prelude.{str_eq, if◌then◌else◌, ℕ, ◌≡◌, refl, String, true, not, [], ◌&&◌}
use claude_studio.Python.Json.{Json, null, obj, end, field, lookup, or_null}
use claude_studio.Python.Result.{Result, ok, err, type_error}
use claude_studio.Python.Stateful.{Stateful}
use claude_studio.Probes.Steps.{is_reported, Harness, attempt_with}
use claude_studio.Probes.Batch5.{f301, f303, f310, f313, f314}
use claude_studio.Probes.Batch3.F286To292.{f286, f287, f288, f289, f290, f291, f292}
use claude_studio.Probes.Batch3.F293To298.{f294, f295, f297, f299}
use claude_studio.Probes.Batch8.F247To158.{f247}
use claude_studio.Probes.Batch10.F271To327.{f276}
use claude_studio.Probes.Batch10.F330To353.{f330}
use claude_studio.Probes.Batch16.F81To279.{f080}
use claude_studio.Probes.Batch17.F70To329.{f328}
use claude_studio.Probes.Batch17.F335To360.{f360}
use claude_studio.Probes.Batch13.{main as batch13}
use claude_studio.Probes.Batch20.{main}
use claude_studio.Probes.Meaning.Reported.{main-is_reported}
use claude_studio.Probes.Batch21.{f254}
use claude_studio.Probes.Meaning.Permissions.{
  Checks, Checks-rules, strict_asks, standard_asks, auto_gates, yolo_allows, main_is_gated,
  outside_is_gated, downloads_denied, subagents_never_ask, fork_bombs_gated,
}
use claude_studio.Probes.Meaning.Constant.{Fails, constant-Fails}
use claude_studio.Probes.Meaning.{has_ended}
use claude_studio.Probes.Meaning.Remembered.{Remembers-passes}
use claude_studio.Probes.Batch16.F284To113.{f345}
use claude_studio.Probes.Meaning.Silent.{main_silent}
use claude_studio.Probes.Meaning.Fallback.{
  status_is, cloud_kept, local_kept, local_named, attempt_with-status,
}
use claude_studio.Tests.Core.{core, counting, same_reply, up, begin}

abbrev policy : Json → Result Json
policy question = same_reply

abbrev path : String → String → String
path fid name = name

Checks-rules_example :
    Checks policy 0 (f287 up) strict_asks
    × Checks policy 0 (f288 up) standard_asks
    × Checks policy 0 (f289 up) auto_gates
    × Checks policy 0 (f290 up) yolo_allows
    × Checks policy 0 (f291 up) main_is_gated
    × Checks policy 0 (f292 up) outside_is_gated
    × Checks policy 0 (f294 up) downloads_denied
    × Checks policy 0 (f295 up) subagents_never_ask
    × Checks policy 0 (f299 up) fork_bombs_gated
Checks-rules_example = Checks-rules up policy path (λ payload w. refl) (λ fid name text w. refl) 0

constant-Fails_example :
    Fails 0 (f288 up)
    × Fails 0 (f291 up)
    × Fails 0 (f295 up)
    × Fails 0 (f297 up)
    × Fails 0 (f301 up)
    × Fails 0 (f303 up)
    × Fails 0 (f310 up)
    × Fails 0 (f313 up)
    × Fails 0 (f314 up)
    × Fails 0 (f247 up)
    × Fails 0 (f276 up)
    × Fails 0 (f330 up)
    × Fails 0 (f080 up)
    × Fails 0 (f328 up)
    × Fails 0 (f254 up)
constant-Fails_example = constant-Fails up same_reply (λ method payload w. refl) 0

abbrev mute : Harness ℕ
mute = core (ok tt) (counting (err type_error))

main_silent_example :
    let s = (main mute begin).1 in
    ((main mute begin).0 ≡ err type_error) × (s.results ≡ end) × (s.printed ≡ []) × (s.world ≡ 1)
main_silent_example = main_silent mute begin type_error refl refl refl

attempt_with-status_example :
    let entry = lookup "F360" (attempt_with up "F360" (f360 up) begin).1.results in
    (status_is "pass" entry ≡ cloud_kept policy && local_kept policy)
    × (status_is "blocked" entry
        ≡ cloud_kept policy && local_named policy && not (local_kept policy))
    × (status_is "fail" entry ≡ not (cloud_kept policy && local_named policy))
attempt_with-status_example =
    attempt_with-status up policy path (λ payload w. refl) (λ fid name text w. refl) begin

main-is_reported_example :
    ((batch13 up begin).0 ≡ ok tt) × (is_reported "F127" (batch13 up begin).1.results ≡ true)
main-is_reported_example = main-is_reported up begin "F127" refl refl refl

abbrev told : String → Json → Json
told key payload = elim payload [ obj fs ↦ or_null (lookup key fs) | _ ↦ null ]

-- A core whose world is the value that it was told last.
abbrev remember : String → Json → Stateful Json Json
remember method payload w =
    if str_eq method "config.set"
    then (ok null, told "trust_mode" payload)
    else if str_eq method "flags.set"
    then (ok null, told "enabled" payload)
    else if str_eq method "settings.set"
    then (ok null, told "value" payload)
    else if str_eq method "config.get"
    then (ok (obj (field "trust_mode" w end)), w)
    else if str_eq method "flags.eval"
    then (ok (obj (field "enabled" w end)), w)
    else (ok (obj (field "value" w end)), w)

abbrev memory : Harness Json
memory = core (ok tt) remember

Remembers-passes_example :
    (has_ended (f286 memory null).0 ≡ true)
    × (has_ended (f330 memory null).0 ≡ true)
    × (has_ended (f345 memory null).0 ≡ true)
Remembers-passes_example =
    Remembers-passes memory null path (λ fid name text w. refl) null
      (record { taken = λ v w. refl; given = λ v w. refl })
      (record { taken = λ v w. refl; given = λ v w. refl })
      (record { taken = λ v w. refl; given = λ v w. refl })
