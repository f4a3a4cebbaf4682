-- ===== src/Probes/Batch63.antt =====
-- test-harness/probes/batch63.py: the note of a session is there again after a restart (F150).
pub mod Notes
pub mod Keeper
use claude_studio.Prelude.{String, str_append, true, Option, some, if◌then◌else◌}
use claude_studio.Python.Json.{Json, str, bool, obj, end, field, truthy, is_text}
use claude_studio.Python.Result.{get, index}
use claude_studio.Python.Stateful.{Stateful, ◌>>=◌, ◌>>◌, pure, lift}
use claude_studio.Probes.Steps.{
  Settings, Harness, Run, check, with_core, ev, close, attempt, on_world, print_results,
}

abbrev pub note_text : String
note_text = "Review noetig vor Merge"

abbrev pub of_session : Json → Json
of_session sid = obj (field "session_id" sid end)

abbrev pub settings : String → String → String → Settings
settings root home log = record {
  home = some home;
  library_dir = some root;
  log_path = some log;
  env_extra = end;
  seed_models = true;
}

-- What is written as evidence.
abbrev pub kept : Json → Json
kept sid = obj (
    field "session_id" sid
      (field "note" (str note_text) (field "persisted_across_restart" (bool true) end)))

abbrev pub success : String
success = "Session-Notiz überlebte App-Neustart (neuer Core, gleiches HOME)"

module _ {W : Type 0} (h : Harness W) where
  abbrev pub new_session : Json
  new_session = obj (field "title" (str "Auth-Refactor") (field "cwd" (str h.root) end))

  -- `c.request("session.get_note", {"session_id": sid})["note"]`
  unfoldable pub get_note : Json → Stateful W Json
  get_note sid = do reply ← h.request "session.get_note" (of_session sid); lift (index "note" reply)

  unfoldable pub session_id_of_another : Stateful W Json
  session_id_of_another = do
    again ← h.request "session.create" new_session
    lift (get "session_id" again)

  -- The session's id: the second request is made if the first reply has none under `id`.
  unfoldable pub create_session : Stateful W Json
  create_session = do
    reply ← h.request "session.create" new_session
    id ← lift (get "id" reply)
    if truthy id then pure id else session_id_of_another

  unfoldable pub first_run : Stateful W Json
  first_run = do
    h.connect 30
    sid ← create_session
    check (truthy sid) "keine session_id von session.create"
    h.request "session.set_note" (obj (field "session_id" sid (field "note" (str note_text) end)))
    note ← get_note sid
    check (is_text note_text note) ""
    close h
    pure sid

  unfoldable pub second_run : Json → Stateful W (Unit {0})
  second_run sid = do
    h.connect 30
    got ← get_note sid
    check (is_text note_text got) (str_append "Notiz nach Neustart verloren: " (h.repr got))
    close h

  -- The body of the `try`, up to `record`.
  unfoldable pub note_body : String → Stateful W (String × String)
  note_body home = do
    sid ← with_core h (settings h.root home "/tmp/b63a.log") first_run
    with_core h (settings h.root home "/tmp/b63b.log") (second_run sid)
    evidence ← ev h "F150" "session-note.json" (kept sid)
    pure (evidence, success)

  unfoldable pub main : Stateful (Run W) (Unit {0})
  main = do
    home ← on_world h (h.mkdtemp "cs-f150-home-")
    attempt h "F150" (note_body home)
    print_results h
