-- ===== src/Probes/Suite.antt =====
-- The probe modules (test-harness/probes) whose `main` is of the plain form (`probe_main`) and the
-- central runner (test-harness/lib/run_probes.py) together: the runner gets what these modules print,
-- and marks the features.
use claude_studio.Prelude.{
  ℕ, ◌≡◌, refl, sym, ap, subst, ◌∙◌, String, str_eq, eq_iff, Bool, true, false, ◌&&◌, ◌||◌, Option,
  none, some, List, [], ◌∷◌, map, if◌then◌else◌, arith,
}
use claude_studio.Python.Json.{
  Json, Fields, end, field, obj, lookup, insert, HasDistinctKeys, insert-HasDistinctKeys,
}
use claude_studio.Python.Result.{Result, ok, err}
use claude_studio.Python.Text.{strip}
use claude_studio.Python.Text.Lines.{has_break, stdout_of}
use claude_studio.Features.{Feature}
use claude_studio.Runner.{run_module, exited, is_candidate, has_status, Outcome, run_main}
use claude_studio.Runner.Marks.{pass_in, reported_pass, promoted}
use claude_studio.Runner.Total.{
  IsReadable, AllReadable, insert-AllReadable, AreReadable, run_main-promoted,
}
use claude_studio.Probes.Steps.{Settings, Harness, Run, probe_main, print_results}
use claude_studio.Probes.Steps.Verdicts.{verdict, run_module-print_results}
use claude_studio.Probes.Steps.Passes.{
  Claims, is_listed, judged, connected, launched, probe_main-done,
}

abbrev pub has_ended : {A : Type 0} → Result A → Bool
has_ended r = elim r [ ok _ ↦ true | err _ ↦ false ]

-- The last part that is listed for the feature `k` ends without an exception, in the world that the
-- parts before it have left.
abbrev pub passes : {W : Type 0} → String → Claims W → W → Bool
passes k [] w = false
passes k ((fid, body) ∷ rest) w =
    if is_listed k rest then passes k rest (body w).1 else str_eq fid k && has_ended (body w).0

passes-listed :
    {W : Type 0} (k : String) (claims : Claims W) (w : W)
    → is_listed k claims ≡ false
    → passes k claims w ≡ false
passes-listed k [] w e = refl
passes-listed k ((fid, body) ∷ rest) w e = ground arith

pass_in-missing : (k : String) (fs : Fields) → lookup k fs ≡ none → pass_in k fs ≡ false
pass_in-missing k end e = refl
pass_in-missing k (field j v fs) e = ground (arith, pass_in-missing k fs)

pass_in-insert :
    (k fid : String) (v : Json) (fs : Fields)
    → HasDistinctKeys fs
    → pass_in k (insert fid v fs) ≡ (if str_eq fid k then has_status "pass" v else pass_in k fs)
pass_in-insert k fid v end d = ground arith
pass_in-insert k fid v (field j w fs) (missing, d) = ground (
  arith,
  eq_iff j fid,
  eq_iff fid k,
  eq_iff j k,
  pass_in-missing j fs missing,
  pass_in-insert k fid v fs d,
)

module _ {W : Type 0} (h : Harness W) where
  has_status-verdict :
      (r : Result (String × String)) → has_status "pass" (verdict h r) ≡ has_ended r
  has_status-verdict (ok (evidence, note)) = refl
  has_status-verdict (err e) = refl

  verdict-IsReadable : (r : Result (String × String)) → IsReadable (verdict h r)
  verdict-IsReadable (ok (evidence, note)) = (_, 3, refl, refl)
  verdict-IsReadable (err e) = (_, 2, refl, refl)

  judged-AllReadable :
      (claims : Claims W) (w : W) (fs : Fields)
      → AllReadable fs
      → AllReadable (judged h claims w fs)
  judged-AllReadable [] w fs readable = readable
  judged-AllReadable ((fid, body) ∷ rest) w fs readable =
      let v = verdict h (body w).0 in
      judged-AllReadable rest (body w).1 (insert fid v fs)
        (insert-AllReadable fid v fs (verdict-IsReadable (body w).0) readable)

  pass_in-judged :
      (k : String) (claims : Claims W) (w : W) (fs : Fields)
      → HasDistinctKeys fs
      → pass_in k (judged h claims w fs)
        ≡ (if is_listed k claims then passes k claims w else pass_in k fs)
  pass_in-judged k [] w fs d = refl
  pass_in-judged k ((fid, body) ∷ rest) w fs d =
      let v = verdict h (body w).0 in
      ground (
        arith,
        has_status-verdict (body w).0,
        pass_in-insert k fid v fs d,
        pass_in-judged k rest (body w).1 (insert fid v fs) (insert-HasDistinctKeys fid v fs d),
      )

-- A probe module whose `main` is of the plain form (`probe_main`), with what it runs on.
pub record Probe (W : Type 0) : Type 0 where
  pub name : String
  pub harness : Harness W
  pub settings : Settings
  pub timeout : ℕ
  pub claims : Claims W
  pub world : W

module _ {W : Type 0} (loads : String → Option Json) where
  abbrev begin : W → Run W
  begin w = record { results = end; printed = []; world = w }

  -- The process of such a module: what its `main` leaves.
  abbrev pub finished : Probe W → Run W
  finished p = (probe_main p.harness p.settings p.timeout p.claims (begin p.world)).1

  -- What the runner gets of a module.
  abbrev pub ran : Probe W → String × Option Json
  ran p = (p.name, run_module loads (exited (stdout_of (finished p).printed)))

  abbrev line : Probe W → String
  line p = p.harness.dumps (obj (field "results" (obj (finished p).results) end))

  -- The core is launched, the client connects, and what is printed is one line that is read back.
  abbrev pub IsRun : Probe W → Type 0
  IsRun p =
      ((p.harness.launch p.settings p.world).0 ≡ ok tt)
      × ((p.harness.connect p.timeout (launched p.harness p.settings p.timeout (begin p.world))).0
          ≡ ok tt)
      × (has_break (line p) ≡ false)
      × (is_candidate (strip (line p)) ≡ true)
      × (loads (strip (line p)) ≡ some (obj (field "results" (obj (finished p).results) end)))

  abbrev pub AreRun : List (Probe W) → Type 0
  AreRun [] = Unit
  AreRun (p ∷ ps) = IsRun p × AreRun ps

  abbrev pub any_passes : String → List (Probe W) → Bool
  any_passes k [] = false
  any_passes k (p ∷ ps) =
      passes k p.claims (connected p.harness p.settings p.timeout (begin p.world))
      || any_passes k ps

  -- The entries of a module that is run.
  entries : Probe W → Fields
  entries p =
      judged p.harness p.claims (connected p.harness p.settings p.timeout (begin p.world)) end

  -- What the runner reads of a state that `main` may leave.
  abbrev ReadsBack : Probe W → Run W → Type 0
  ReadsBack p s =
      let text = p.harness.dumps (obj (field "results" (obj s.results) end)) in
      has_break text ≡ false
      → is_candidate (strip text) ≡ true
      → loads (strip text) ≡ some (obj (field "results" (obj s.results) end))
      → run_module loads (exited (stdout_of s.printed)) ≡ some (obj (entries p))

  ran-entries : (p : Probe W) → IsRun p → (ran p).1 ≡ some (obj (entries p))
  unfolding print_results entries
  ran-entries p (up, there, whole, candidate, read) =
      let ended =
        probe_main-done p.harness p.settings p.timeout (begin p.world) p.claims up there in
      let s : Run W = record { results = entries p; printed = []; world = p.world } in
      subst (ReadsBack p) (sym (ap (λ o. o.1) ended)) (run_module-print_results p.harness loads s)
        whole candidate read

  ran-AreReadable : (ps : List (Probe W)) → AreRun ps → AreReadable (map ran ps)
  unfolding entries
  ran-AreReadable [] run = tt
  ran-AreReadable (p ∷ ps) (run, rest) =
      let w = connected p.harness p.settings p.timeout (begin p.world) in
      rw (ran-entries p run)
        ((entries p, refl, judged-AllReadable p.harness p.claims w end tt), ran-AreReadable ps rest)

  reported_pass-ran :
      (k : String) (ps : List (Probe W))
      → AreRun ps
      → reported_pass k (map ran ps) ≡ any_passes k ps
  unfolding entries
  reported_pass-ran k [] run = refl
  reported_pass-ran k (p ∷ ps) (run, rest) =
      let w = connected p.harness p.settings p.timeout (begin p.world) in
      rw (ran-entries p run) (
        ground (
          arith,
          pass_in-judged p.harness k p.claims w end tt,
          reported_pass-ran k ps rest,
          passes-listed k p.claims w,
        ))

  -- For a run of modules whose `main` is of the plain form (`probe_main`: the features side by side,
  -- each in a try of its own): when each of them has its core launched and its client connected, and
  -- prints its results as one line (no character at which `splitlines` cuts) that is read back as
  -- these results, `main` of the runner ends, and the features that it makes pass (with the last
  -- entry of an id) are exactly those for which the last part that some module lists has ended
  -- without an exception, in the world that the parts before it have left.
  pub run_main-passes :
      (ps : List (Probe W)) (fs : List Feature)
      → AreRun ps
      → (out : Outcome) × (run_main false (map ran ps) fs ≡ ok out)
        × (out.features ≡ promoted (λ k. any_passes k ps) fs)
  run_main-passes ps fs run =
      let (out, ended, marks) = run_main-promoted false (map ran ps) fs (ran-AreReadable ps run) in
      (out, ended, marks ∙ ap (λ p. promoted p fs) (λ i k. reported_pass-ran k ps run i))
