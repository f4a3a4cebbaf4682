-- ===== src/Probes/Meaning/Fallback.antt =====
-- test-harness/probes/batch17.py: the feature that may be blocked.
use claude_studio.Prelude.{
  ◌≡◌, ◌∙◌, str_eq, String, Bool, true, false, not, ◌&&◌, Option, some, eq_iff, arith,
}
use claude_studio.Python.Json.{Json, bool, obj, end, field, lookup, lookup-insert}
use claude_studio.Python.Result.{Result, ok, err}
use claude_studio.Python.Stateful.{Stateful}
use claude_studio.Runner.{has_status}
use claude_studio.Probes.Steps.{Harness, Run, attempt_with, record_result}
use claude_studio.Probes.Meaning.{tells, is_text, AnswersBy, WritesEvidence}
use claude_studio.Probes.Batch17.F335To360.{f360}

abbrev asked : Bool → Json
asked available = obj (field "cloud_available" (bool available) end)

abbrev any_value : Json → Bool
any_value v = true

abbrev pub status_is : String → Option Json → Bool
status_is s entry = elim entry [ some info ↦ has_status s info | _ ↦ false ]

-- The status that the body of a `try` gives, or the one of its handler.
abbrev ends_with : String → Result (String × String × String) → Bool
ends_with s r = elim r [ ok (status, evidence, note) ↦ str_eq status s | err _ ↦ str_eq "fail" s ]

attempt_with-reports :
    {W : Type 0} (h : Harness W) (fid : String) (body : Stateful W (String × String × String))
    (status : String) (s : Run W)
    → status_is status (lookup fid (attempt_with h fid body s).1.results)
      ≡ ends_with status (body s.world).0
unfolding attempt_with record_result
attempt_with-reports h fid body status s = grind (arith, eq_iff fid fid, lookup-insert fid fid)

module _ (policy : Json → Result Json) where
  abbrev pub cloud_kept : Bool
  cloud_kept = tells "provider" (is_text "anthropic") (policy (asked true))

  abbrev pub local_kept : Bool
  local_kept = tells "provider" (is_text "ollama") (policy (asked false))

  abbrev pub local_named : Bool
  local_named = tells "provider" any_value (policy (asked false))

module _ {W : Type 0} (h : Harness W) (policy : Json → Result Json)
    (path : String → String → String) (answers : AnswersBy h "llm.fallback" policy)
    (writes : WritesEvidence h path) where
  f360-status :
      (w : W)
      → (ends_with "pass" (f360 h w).0 ≡ cloud_kept policy && local_kept policy)
        × (ends_with "blocked" (f360 h w).0
            ≡ cloud_kept policy && local_named policy && not (local_kept policy))
        × (ends_with "fail" (f360 h w).0 ≡ not (cloud_kept policy && local_named policy))
  unfolding f360
  f360-status w = (
    grind (arith, answers, writes),
    grind (arith, answers, writes),
    grind (arith, answers, writes),
  )

  -- On a core that chooses the provider by the question alone, and if evidence can be written, F360
  -- of batch17 is reported as passed if the cloud's provider is anthropic and without the cloud it
  -- is ollama, as blocked if without the cloud it is another one, and else as failed.
  pub attempt_with-status :
      (s : Run W)
      → let entry = lookup "F360" (attempt_with h "F360" (f360 h) s).1.results in
        (status_is "pass" entry ≡ cloud_kept policy && local_kept policy)
        × (status_is "blocked" entry
            ≡ cloud_kept policy && local_named policy && not (local_kept policy))
        × (status_is "fail" entry ≡ not (cloud_kept policy && local_named policy))
  attempt_with-status s =
      let (p, b, f) = f360-status s.world in
      let step = λ (status : String). attempt_with-reports h "F360" (f360 h) status s in
      (step "pass" ∙ p, step "blocked" ∙ b, step "fail" ∙ f)
