-- ===== src/Probes/Batch63/Keeper.antt =====
-- A core that keeps its notes over a restart passes F150.
use claude_studio.Prelude.{◌≡◌, refl, ◌∙◌, String, true, some, arith}
use claude_studio.Python.Json.{Json, str, obj, end, field, lookup, lookup-insert, truthy}
use claude_studio.Python.Result.{ok}
use claude_studio.Python.Stateful.{Stateful}
use claude_studio.Runner.{has_status}
use claude_studio.Probes.Steps.{Harness, Run, Settings, with_core, text_of, print_results}
use claude_studio.Probes.Steps.Verdicts.{verdict}
use claude_studio.Probes.Batch63.{
  note_text, kept, success, settings, of_session, new_session, get_note, create_session, first_run,
  second_run, note_body, main,
}
use claude_studio.Probes.Batch63.Notes.{main-eq}

-- A core that answers, whose session has the id `sid`, and that keeps the session's note whatever
-- else is asked of it, over a stop and a launch too.
pub record KeepsNotes {W : Type 0} (h : Harness W) (note : W → Json) (sid : Json) : Type 0 where
  pub known : truthy sid ≡ true
  pub launched :
      (at : Settings) (w : W) → ((h.launch at w).0 ≡ ok tt) × (note (h.launch at w).1 ≡ note w)
  pub stopped : (w : W) → note (h.stop w) ≡ note w
  pub connected : (w : W) → ((h.connect 30 w).0 ≡ ok tt) × (note (h.connect 30 w).1 ≡ note w)
  pub closed : (w : W) → note (h.close w) ≡ note w
  pub created :
      (w : W) → (h.request "session.create" (new_session h) w).0 ≡ ok (obj (field "id" sid end))
  pub noted :
      (v : Json) (w : W)
      → let (r, w') =
          h.request "session.set_note" (obj (field "session_id" sid (field "note" v end))) w in
        (r ≡ ok (obj end)) × (note w' ≡ v)
  pub answered :
      (w : W)
      → let (r, w') = h.request "session.get_note" (of_session sid) w in
        (r ≡ ok (obj (field "note" (note w) end))) × (note w' ≡ note w)
  pub written :
      (fid name text : String) (w : W)
      → (path : String) × ((h.write_evidence fid name text w).0 ≡ ok path)

module _ {W : Type 0} (h : Harness W) (note : W → Json) (sid : Json)
    (keeps : KeepsNotes h note sid) where
  first_run-ok : (w : W) → ((first_run h w).0 ≡ ok sid) × (note (first_run h w).1 ≡ str note_text)
  unfolding first_run create_session get_note
  first_run-ok w =
      let c = keeps.connected w in
      let w1 = (h.connect 30 w).1 in
      let m = keeps.created w1 in
      let w2 = (h.request "session.create" (new_session h) w1).1 in
      let n = keeps.noted (str note_text) w2 in
      let w3 =
        (h.request "session.set_note"
          (obj (field "session_id" sid (field "note" (str note_text) end))) w2).1 in
      let a = keeps.answered w3 in
      let w4 = (h.request "session.get_note" (of_session sid) w3).1 in
      ground (arith, c.0, m, keeps.known, n.0, n.1, a.0, a.1, keeps.closed w4)

  second_run-ok : (w : W) → note w ≡ str note_text → (second_run h sid w).0 ≡ ok tt
  unfolding second_run get_note
  second_run-ok w kept =
      let c = keeps.connected w in
      let a = keeps.answered (h.connect 30 w).1 in ground (arith, c.0, c.1, a.0, kept)

  with_core-ok :
      {A : Type 0} (at : Settings) (body : Stateful W A) (w : W)
      → with_core h at body w ≡ ((body (h.launch at w).1).0, h.stop (body (h.launch at w).1).1)
  unfolding with_core
  with_core-ok at body w = let l = keeps.launched at w in ground (arith, l.0)

  note_body-ok : (home : String) (w : W) → (r : String × String) × ((note_body h home w).0 ≡ ok r)
  unfolding note_body
  note_body-ok home w =
      let at1 = settings h.root home "/tmp/b63a.log" in
      let at2 = settings h.root home "/tmp/b63b.log" in
      let w1 = (h.launch at1 w).1 in
      let f = first_run-ok w1 in
      let w2 = h.stop (first_run h w1).1 in
      let l = keeps.launched at2 w2 in
      let w3 = (h.launch at2 w2).1 in
      let t = second_run-ok w3 (l.1 ∙ keeps.stopped (first_run h w1).1 ∙ f.1) in
      let w4 = h.stop (second_run h sid w3).1 in
      let (path, e) = keeps.written "F150" "session-note.json" (text_of h (kept sid)) w4 in
      (
        (path, success),
        ground (
          arith,
          with_core-ok at1 (first_run h) w,
          with_core-ok at2 (second_run h sid) w2,
          f.0,
          t,
          e,
        ),
      )

  -- On a core that answers and keeps a session's note, over a stop and a launch too, and with
  -- evidence files that can be written, main of batch63 reports F150 as passed if it can make its
  -- home directory.
  pub main-passes :
      (s : Run W) {home : String}
      → (h.mkdtemp "cs-f150-home-" s.world).0 ≡ ok home
      → (entry : Json) × (lookup "F150" (main h s).1.results ≡ some entry)
        × (has_status "pass" entry ≡ true)
  unfolding print_results
  main-passes s {home} made =
      let w = (h.mkdtemp "cs-f150-home-" s.world).1 in
      let (r, e) = note_body-ok home w in
      let entry = verdict h (note_body h home w).0 in
      (entry, rw (main-eq h s made) (lookup-insert "F150" "F150" entry s.results), rw e refl)
