-- ===== src/Probes/Steps/Verdicts.antt =====
-- What the frame of a probe makes of the part that may fail, and what the runner reads of it.
use claude_studio.Prelude.{
  ◌≡◌, refl, sym, ap, ◌∙◌, String, Bool-cases, eq_iff, true, false, Option, none, some, [], ◌∷◌,
  inl, inr,
}
use claude_studio.Python.Json.{Json, null, obj, end, field, insert}
use claude_studio.Python.Result.{Result, ok, err, Result-cases}
use claude_studio.Python.Stateful.{Stateful}
use claude_studio.Runner.{run_module, exited, find_results, is_candidate}
use claude_studio.Python.Text.{strip, starts_with, has_visible, strip-is_empty}
use claude_studio.Python.Text.Lines.{has_break, stdout_of, splitlines-stdout_of}
use mathlib.Core.List.{reverse, reverse-append}
use claude_studio.Probes.Steps.{Harness, Run, report, attempt, record_result, print_results}

module _ {W : Type 0} (h : Harness W) where
  -- The entry of a feature, by how the part of its `try` has ended.
  abbrev pub verdict : Result (String × String) → Json
  verdict (ok (evidence, note)) = report "pass" evidence note
  verdict (err e) = report "fail" "" (h.error_text e)

  pub attempt-verdict :
      (fid : String) (body : Stateful W (String × String)) (s : Run W)
      → attempt h fid body s ≡ (
        ok tt,
        record s {
          results = insert fid (verdict (body s.world).0) s.results;
          world = (body s.world).1;
        },
      )
  unfolding attempt record_result
  attempt-verdict fid body s = elim (Result-cases (body s.world).0) [
    | inl ((evidence, note), e) ↦ rw (attempt, e) refl
    | inr (x, e) ↦ rw (attempt, e) refl
  ]

-- Only a text that is not blank can be the line that the runner looks for.
is_candidate-visible : (l : String) → is_candidate (strip l) ≡ true → has_visible l ≡ true
unfolding starts_with
is_candidate-visible l candidate = elim (Bool-cases (has_visible l)) [
  | inl e ↦ e
  | inr e ↦
      let blank = (eq_iff (strip l) "").0 (strip-is_empty l ∙ rw e refl) in
      let bad : false ≡ true = sym (ap is_candidate blank) ∙ candidate in cc
]

-- If the text of a probe's results is one line (no character at which splitlines cuts) and,
-- stripped, looks like a line of results and is read back as them, the runner's run_module gets
-- exactly these results out of the output of the probe that has printed this text last, whatever
-- was printed before.
pub run_module-print_results :
    {W : Type 0} (h : Harness W) (loads : String → Option Json) (s : Run W)
    → let printed = h.dumps (obj (field "results" (obj s.results) end)) in
      has_break printed ≡ false
      → is_candidate (strip printed) ≡ true
      → loads (strip printed) ≡ some (obj (field "results" (obj s.results) end))
      → run_module loads (exited (stdout_of (print_results h s).1.printed)) ≡ some (obj s.results)
unfolding run_module find_results print_results
run_module-print_results h loads s whole candidate read =
    let line = h.dumps (obj (field "results" (obj s.results) end)) in
    let visible = is_candidate-visible line candidate in
    let (front, last, lines, same) = splitlines-stdout_of s.printed line visible whole in
    ap (λ ls. elim (find_results loads ls) as (λ _. Option Json) [ null ↦ none | res ↦ some res ])
      (ap reverse lines ∙ reverse-append front (last ∷ []))
    ∙ rw (same, candidate, read) refl
