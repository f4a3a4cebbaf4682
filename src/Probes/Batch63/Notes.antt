-- ===== src/Probes/Batch63/Notes.antt =====
-- What a pass of F150 says of the core, and that a core which keeps its notes passes.
use claude_studio.Prelude.{
  ◌≡◌, refl, ap, ◌∙◌, String, Bool, true, false, some, arith, ◌⊎◌, [], ◌∷◌, ◌++◌, inl, inr,
}
use claude_studio.Python.Json.{Json, obj, end, field, lookup, insert, lookup-insert, is_text}
use claude_studio.Python.Result.{Result, ok, err, err-ne-ok, Result-cases}
use claude_studio.Python.Stateful.{Stateful, ◌>>◌, >>=-ok}
use claude_studio.Runner.{has_status}
use claude_studio.Probes.Steps.{Harness, Run, Settings, attempt, print_results, with_core, on_world}
use claude_studio.Probes.Steps.Verdicts.{verdict, attempt-verdict}
use claude_studio.Probes.Batch63.{
  note_text, settings, get_note, first_run, second_run, note_body, main,
}

-- A reply that holds the note.
abbrev pub is_note : Result Json → Bool
is_note (ok got) = is_text note_text got
is_note (err _) = false

module _ {W : Type 0} (h : Harness W) where
  with_core-inv :
      {A : Type 0} (at : Settings) (body : Stateful W A) (w : W) {a : A}
      → (with_core h at body w).0 ≡ ok a
      → (body (h.launch at w).1).0 ≡ ok a
  unfolding with_core
  with_core-inv at body w {a} e = elim (Result-cases (h.launch at w).0) [
    | inl (t, p) ↦ rw (with_core, p) at e
    | inr (x, p) ↦ let bad : err x ≡ ok a = rw (with_core, p) at e in absurd (err-ne-ok bad)
  ]

  second_run-inv :
      (sid : Json) (w : W)
      → (second_run h sid w).0 ≡ ok tt
      → is_note (get_note h sid (h.connect 30 w).1).0 ≡ true
  unfolding second_run
  second_run-inv sid w e = ground arith

  note_body-inv :
      (home : String) (w : W) {r : String × String}
      → (note_body h home w).0 ≡ ok r
      → let (sid, w1) = with_core h (settings h.root home "/tmp/b63a.log") (first_run h) w in
        (id : Json) × (sid ≡ ok id)
        × ((second_run h id (h.launch (settings h.root home "/tmp/b63b.log") w1).1).0 ≡ ok tt)
  unfolding note_body
  note_body-inv home w {r} e =
      elim (Result-cases (with_core h (settings h.root home "/tmp/b63a.log") (first_run h) w).0) [
        | inl (id, p) ↦ (
          id,
          p,
          with_core-inv (settings h.root home "/tmp/b63b.log") (second_run h id) _ (ground arith),
        )
        | inr (x, p) ↦ absurd (ground arith)
      ]

  -- What the note is after the restart, by the requests of the second run.
  abbrev pub KeptAfterRestart : String → W → Type 0
  KeptAfterRestart home w =
      let (sid, w1) = with_core h (settings h.root home "/tmp/b63a.log") (first_run h) w in
      let w2 = (h.connect 30 (h.launch (settings h.root home "/tmp/b63b.log") w1).1).1 in
      (id : Json) × (sid ≡ ok id) × (is_note (get_note h id w2).0 ≡ true)

  note_body-KeptAfterRestart :
      (home : String) (w : W)
      → has_status "pass" (verdict h (note_body h home w).0) ≡ true
      → KeptAfterRestart home w
  note_body-KeptAfterRestart home w e = elim (Result-cases (note_body h home w).0) [
    | inl (r, p) ↦
        let (id, q, t) = note_body-inv home w p in
        (id, q, second_run-inv id (h.launch (settings h.root home "/tmp/b63b.log") _).1 t)
    | inr (x, p) ↦ absurd (ground arith)
  ]

  pass_or_fail :
      (r : Result (String × String))
      → (has_status "pass" (verdict h r) ≡ true) ⊎ (has_status "fail" (verdict h r) ≡ true)
  pass_or_fail (ok r) = inl refl
  pass_or_fail (err x) = inr refl

  pub main-eq :
      (s : Run W) {home : String}
      → (h.mkdtemp "cs-f150-home-" s.world).0 ≡ ok home
      → let w = (h.mkdtemp "cs-f150-home-" s.world).1 in
        let (r, w1) = note_body h home w in
        main h s
        ≡ print_results h (record s { results = insert "F150" (verdict h r) s.results; world = w1 })
  unfolding main
  main-eq s {home} made =
      let w = (h.mkdtemp "cs-f150-home-" s.world).1 in
      let s' : Run W = record s { world = w } in
      let tried = attempt-verdict h "F150" (note_body h home) s' in
      >>=-ok (on_world h (h.mkdtemp "cs-f150-home-"))
        (λ d. attempt h "F150" (note_body h d) >> print_results h) s made
      ∙ >>=-ok (attempt h "F150" (note_body h home)) (λ _. print_results h) s' (ap (λ o. o.0) tried)
      ∙ ap (λ o. print_results h o.1) tried

  -- If the home directory can be made, main of batch63 ends whatever the core does, prints its
  -- results as its last line, and has an entry for F150 whose status is pass or fail; it is pass
  -- only if the first run has ended with a session whose note the core still answers with after the
  -- restart.
  pub main-F150 :
      (s : Run W) {home : String}
      → (h.mkdtemp "cs-f150-home-" s.world).0 ≡ ok home
      → let (r, t) = main h s in
        let w = (h.mkdtemp "cs-f150-home-" s.world).1 in
        (entry : Json) × (r ≡ ok tt)
        × (t.printed ≡ s.printed ++ h.dumps (obj (field "results" (obj t.results) end)) ∷ [])
        × (lookup "F150" t.results ≡ some entry)
        × ((has_status "pass" entry ≡ true) ⊎ (has_status "fail" entry ≡ true))
        × (has_status "pass" entry ≡ true → KeptAfterRestart home w)
  unfolding print_results
  main-F150 s {home} made =
      let w = (h.mkdtemp "cs-f150-home-" s.world).1 in
      let e = main-eq s made in
      let entry = verdict h (note_body h home w).0 in
      let either : (has_status "pass" entry ≡ true) ⊎ (has_status "fail" entry ≡ true) =
        pass_or_fail (note_body h home w).0 in
      (
        entry,
        rw e refl,
        rw e refl,
        rw e (lookup-insert "F150" "F150" entry s.results),
        either,
        note_body-KeptAfterRestart home w,
      )
