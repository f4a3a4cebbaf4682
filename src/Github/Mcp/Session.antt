-- ===== src/Github/Mcp/Session.antt =====
-- The loop of the MCP server over its whole input.
use claude_studio.Prelude.{
  ◌≡◌, refl, sym, ap, ◌∙◌, String, str_eq, Bool, true, false, Option, none, some, List, [], ◌∷◌,
  ◌++◌, map, Option-cases, inl, inr, if◌then◌else◌, arith,
}
use mathlib.Core.List.{map-append}
use claude_studio.Python.Json.{Json, obj, Fields, lookup, or_null}
use claude_studio.Python.Result.{ok, get}
use claude_studio.Python.Text.{strip}
use claude_studio.Github.Mcp.{Outside, handle, run_lines}
use claude_studio.Github.Mcp.Replies.{is_quiet, IsAnswered, handle-IsAnswered}

module _ (loads : String → Option Json) where
  -- The message of a line: none if the line is blank or no JSON.
  abbrev pub message_of : String → Option Json
  message_of line = let text = strip line in if str_eq text "" then none else loads text

  -- The messages of all lines are dicts.
  abbrev pub AreDicts : List String → Type 0
  AreDicts [] = Unit
  AreDicts (line ∷ lines) =
      ((msg : Json) → message_of line ≡ some msg → (fs : Fields) × (msg ≡ obj fs)) × AreDicts lines

  abbrev pub field_of : String → Json → Json
  field_of key (obj fs) = or_null (lookup key fs)
  field_of key v = Json.null

  -- The id of a message that wants an answer.
  abbrev pub wanted_by : Option Json → List Json
  wanted_by none = []
  wanted_by (some msg) =
      if is_quiet (field_of "method" msg) (field_of "id" msg) then [] else field_of "id" msg ∷ []

  -- The ids of the messages that want an answer, in the order of the lines.
  abbrev pub wanted : List String → List Json
  wanted [] = []
  wanted (line ∷ lines) = wanted_by (message_of line) ++ wanted lines

  module _ {W : Type 0} (out : Outside W) where
    handle-sent :
        (fs : Fields) (w : W)
        → (sent : List Json) × ((handle out (obj fs) w).0 ≡ ok sent)
          × (map (get "id") sent ≡ map ok (wanted_by (some (obj fs))))
    handle-sent fs w =
        let quiet = is_quiet (or_null (lookup "method" fs)) (or_null (lookup "id" fs)) in
        answered quiet refl (handle-IsAnswered out fs w)
      where
        answered :
            (b : Bool)
            → is_quiet (or_null (lookup "method" fs)) (or_null (lookup "id" fs)) ≡ b
            → IsAnswered b (or_null (lookup "id" fs)) (handle out (obj fs) w).0
            → (sent : List Json) × ((handle out (obj fs) w).0 ≡ ok sent)
              × (map (get "id") sent ≡ map ok (wanted_by (some (obj fs))))
        answered true q e = ([], e, rw q refl)
        answered false q (a, e, i) = (a ∷ [], e, rw (q, i) refl)

    run_lines-skip :
        (line : String) (lines : List String) (w : W)
        → message_of line ≡ none
        → run_lines out loads (line ∷ lines) w ≡ run_lines out loads lines w
    unfolding run_lines
    run_lines-skip line lines w e = ground (arith, e)

    run_lines-step :
        (line : String) (lines : List String) (w : W) (fs : Fields) {sent : List Json}
        → message_of line ≡ some (obj fs)
        → (handle out (obj fs) w).0 ≡ ok sent
        → let (later, stop, w') = run_lines out loads lines (handle out (obj fs) w).1 in
          run_lines out loads (line ∷ lines) w ≡ (sent ++ later, stop, w')
    unfolding run_lines
    run_lines-step line lines w fs e h = ground (arith, e, h)

    -- If every line is blank, no JSON or an object, the loop goes on to the end of the input, and
    -- sends one answer for each message that wants one, with the message's id, in their order.
    pub run_lines-answers :
        (lines : List String) (w : W)
        → AreDicts lines
        → let (sent, stop, _) = run_lines out loads lines w in
          (stop ≡ ok tt) × (map (get "id") sent ≡ map ok (wanted lines))
    unfolding run_lines
    run_lines-answers [] w dicts = (refl, refl)
    run_lines-answers (line ∷ lines) w dicts = elim (Option-cases (message_of line)) [
      | inl e ↦ rw (run_lines-skip line lines w e, e) (run_lines-answers lines w dicts.1)
      | inr (msg, e) ↦
          let (fs, d) = dicts.0 msg e in
          let e' : message_of line ≡ some (obj fs) = e ∙ ap some d in
          let (sent, h, ids) = handle-sent fs w in
          let (stop, later) = run_lines-answers lines (handle out (obj fs) w).1 dicts.1 in
          rw (run_lines-step line lines w fs e' h, e')
            (
              stop,
              map-append (get "id") sent _
                  ∙ rw (ids, later) refl
                  ∙ sym (map-append ok (wanted_by (some (obj fs))) (wanted lines)),
            )
    ]
