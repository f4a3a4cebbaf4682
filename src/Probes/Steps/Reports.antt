-- ===== src/Probes/Steps/Reports.antt =====
-- The shape of the entries that a `main` of the plain form (`probe_main`) records: what `record`
-- writes, and nothing else.
use claude_studio.Prelude.{
  ℕ, ◌≡◌, refl, sym, subst, ◌⊎◌, inl, inr, String, str_eq, Bool-cases, [], ◌∷◌,
}
use claude_studio.Python.Json.{Json, Fields, end, field, insert}
use claude_studio.Python.Result.{Result, ok, err, Result-cases}
use claude_studio.Probes.Steps.{Settings, Harness, Run, report, probe_main}
use claude_studio.Probes.Steps.Verdicts.{verdict}
use claude_studio.Probes.Steps.Passes.{
  Claims, judged, connected, launched, probe_main-done, probe_main_refused,
}

-- A dict of the three texts status, evidence and note, whose status is pass or fail.
abbrev pub IsReport : Json → Type 0
IsReport info =
    (status evidence note : String) × (info ≡ report status evidence note)
    × ((status ≡ "pass") ⊎ (status ≡ "fail"))

abbrev pub AreReports : Fields → Type 0
AreReports end = Unit
AreReports (field fid info results) = IsReport info × AreReports results

insert-AreReports :
    (fid : String) (info : Json) (results : Fields)
    → IsReport info
    → AreReports results
    → AreReports (insert fid info results)
insert-AreReports fid info end is are = (is, tt)
insert-AreReports fid info (field k v results) is are = elim (Bool-cases (str_eq k fid)) [
  | inl e ↦ rw e (is, are.1)
  | inr e ↦ rw e (are.0, insert-AreReports fid info results is are.1)
]

module _ {W : Type 0} (h : Harness W) where
  verdict-IsReport : (r : Result (String × String)) → IsReport (verdict h r)
  verdict-IsReport (ok (evidence, note)) = ("pass", evidence, note, refl, inl refl)
  verdict-IsReport (err e) = ("fail", "", h.error_text e, refl, inr refl)

  judged-AreReports :
      (claims : Claims W) (w : W) (results : Fields)
      → AreReports results
      → AreReports (judged h claims w results)
  judged-AreReports [] w results are = are
  judged-AreReports ((fid, body) ∷ rest) w results are =
      let v = verdict h (body w).0 in
      judged-AreReports rest (body w).1 (insert fid v results)
        (insert-AreReports fid v results (verdict-IsReport (body w).0) are)

  -- For a `main` of the plain form (`probe_main`: the features side by side, each in a `try` of its
  -- own): whatever the core does, launched or not, every entry that it leaves in its results, which
  -- begin with such entries or with none, is a dict of three texts, the status pass or fail, the
  -- evidence and the note.
  pub probe_main-AreReports :
      (settings : Settings) (timeout : ℕ) (claims : Claims W) (s : Run W)
      → AreReports s.results
      → AreReports (probe_main h settings timeout claims s).1.results
  probe_main-AreReports settings timeout claims s are =
      let same = probe_main_refused h settings timeout s claims in
      elim (Result-cases (h.launch settings s.world).0) [
        | inr (e, down) ↦ subst AreReports (sym (same e (inl down)).1) are
        | inl (_, up) ↦ elim (Result-cases (h.connect timeout (launched h settings timeout s)).0) [
          | inr (e, away) ↦ subst AreReports (sym (same e (inr (up, away))).1) are
          | inl (_, there) ↦
              subst (λ (o : Result Unit × Run W). AreReports o.1.results)
                (sym (probe_main-done h settings timeout s claims up there))
                (judged-AreReports claims (connected h settings timeout s) s.results are)
        ]
      ]
