-- ===== src/Probes/Meaning/Reported.antt =====
-- test-harness/probes/batch13.py: a module whose first `try` records two features.
use claude_studio.Prelude.{
  ◌≡◌, refl, ◌∙◌, ap, String, eq_iff, true, ◌||◌, List, [], ◌∷◌, elem, arith, inl, inr, Bool-cases,
}
use claude_studio.Python.Json.{Fields, insert, lookup-insert}
use claude_studio.Python.Result.{ok, Result-cases}
use claude_studio.Python.Stateful.{Stateful}
use claude_studio.Probes.Steps.{
  Harness, Run, is_reported, attempt_each, record_result, in_core, print_results,
}
use claude_studio.Probes.Steps.Verdicts.{verdict}
use claude_studio.Probes.Steps.Passes.{Claims, is_listed, judged, attempts-judged}
use claude_studio.Probes.Steps.Shared.{attempt_each-reported}
use claude_studio.Probes.Batch13.{settings, features, main}
use claude_studio.Probes.Batch13.F125To342.{f125_f127, f122, f129, f211, f342}
use claude_studio.Probes.Batch13.F333To350.{f333, f323, f326, f350}

-- The features of batch13.
abbrev pub ids : List String
ids = "F125" ∷ "F127" ∷ "F122" ∷ "F129" ∷ "F211" ∷ "F342" ∷ "F333" ∷ "F323" ∷ "F326" ∷ "F350" ∷ []

module _ {W : Type 0} (h : Harness W) where
  is_reported-judged :
      (k : String) (claims : Claims W) (w : W) (fs : Fields)
      → is_reported k (judged h claims w fs) ≡ is_listed k claims || is_reported k fs
  is_reported-judged k [] w fs = refl
  is_reported-judged k ((fid, body) ∷ rest) w fs =
      let v = verdict h (body w).0 in
      ground (
        arith,
        eq_iff fid k,
        lookup-insert fid k v fs,
        is_reported-judged k rest (body w).1 (insert fid v fs),
      )

  -- A feature of a `try` is reported if the body reports it whenever it ends.
  attempt_each-is_reported :
      (fids : List String) (body : Stateful (Run W) (Unit {0})) (s : Run W) (k : String)
      → elem k fids ≡ true
      → ((body s).0 ≡ ok tt → is_reported k (body s).1.results ≡ true)
      → is_reported k (attempt_each h fids body s).1.results ≡ true
  attempt_each-is_reported fids body s k member own =
      let (p, q, same) = attempt_each-reported h fids body s k in
      elim (Result-cases (body s).0) [
        | inl (a, ended) ↦ grind (arith, same, own ended, ended)
        | inr (e, raised) ↦ grind (arith, same, raised)
      ]

  first_two :
      (s : Run W) (k : String)
      → elem k ("F125" ∷ "F127" ∷ []) ≡ true
      → (f125_f127 h s).0 ≡ ok tt
      → is_reported k (f125_f127 h s).1.results ≡ true
  unfolding f125_f127 record_result
  first_two s k member ended = grind (arith, lookup-insert, eq_iff "F125" k, eq_iff "F127" k)

  abbrev others : Claims W
  others =
      ("F122", f122 h)
      ∷ ("F129", f129 h)
      ∷ ("F211", f211 h)
      ∷ ("F342", f342 h)
      ∷ ("F333", f333 h)
      ∷ ("F323", f323 h)
      ∷ ("F326", f326 h)
      ∷ ("F350", f350 h)
      ∷ []

  -- The state behind the first `try`, for a core that has been launched.
  abbrev second : Run W → Run W
  second s =
      (attempt_each h ("F125" ∷ "F127" ∷ []) (f125_f127 h)
        (record s { world = (h.connect 15 s.world).1 })).1

  features-judged :
      (s : Run W)
      → (h.connect 15 s.world).0 ≡ ok tt
      → ((features h s).0 ≡ ok tt)
        × ((features h s).1.results ≡ judged h others (second s).world (second s).results)
  unfolding features
  features-judged s there =
      let s' = record s { world = (h.connect 15 s.world).1 } in
      let (p, q, r) = attempt_each-reported h ("F125" ∷ "F127" ∷ []) (f125_f127 h) s' "F125" in
      let judged_all = attempts-judged h others (second s) in
      (grind (arith, there, p, judged_all), grind (arith, there, p, judged_all))

  main-features :
      (s : Run W)
      → let up = record s { world = (h.launch (settings h) s.world).1 } in
        (h.launch (settings h) s.world).0 ≡ ok tt
        → (features h up).0 ≡ ok tt
        → ((main h s).0 ≡ ok tt) × ((main h s).1.results ≡ (features h up).1.results)
  unfolding main in_core print_results
  main-features s launched ended = (grind (arith, launched, ended), grind (arith, launched, ended))

  second-is_reported :
      (s : Run W) (k : String)
      → elem k ("F125" ∷ "F127" ∷ []) ≡ true
      → is_reported k (second s).results ≡ true
  second-is_reported s k member =
      let s' = record s { world = (h.connect 15 s.world).1 } in
      attempt_each-is_reported ("F125" ∷ "F127" ∷ []) (f125_f127 h) s' k member
        (first_two s' k member)

  reported_or_listed :
      (s : Run W) (k : String)
      → elem k ids ≡ true
      → is_listed k others || is_reported k (second s).results ≡ true
  reported_or_listed s k member = elim (Bool-cases (elem k ("F125" ∷ "F127" ∷ []))) [
    | inl first ↦ let own = second-is_reported s k first in ground (arith, own)
    | inr later ↦ ground arith
  ]

  -- If the core is launched and the client connects, `main` of batch13 ends, and each of its ten
  -- features is reported, whatever the core replies.
  pub main-is_reported :
      (s : Run W) (k : String)
      → elem k ids ≡ true
      → let w = (h.launch (settings h) s.world).1 in
        (h.launch (settings h) s.world).0 ≡ ok tt
        → (h.connect 15 w).0 ≡ ok tt
        → ((main h s).0 ≡ ok tt) × (is_reported k (main h s).1.results ≡ true)
  main-is_reported s k member up there =
      let s1 = record s { world = (h.launch (settings h) s.world).1 } in
      let (ended, results) = features-judged s1 there in
      let (done, same) = main-features s up ended in
      let all = is_reported-judged k others (second s1).world (second s1).results in
      (done, ap (is_reported k) (same ∙ results) ∙ all ∙ reported_or_listed s1 k member)
