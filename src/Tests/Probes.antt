-- ===== src/Tests/Probes.antt =====
-- Probe runs against a core that holds one note.
use claude_studio.Prelude.{
  ◌≡◌, refl, String, str_eq, true, Option, none, some, [], ◌∷◌, ◌++◌, ◌⊎◌, if◌then◌else◌,
}
use claude_studio.Python.Json.{Json, null, str, obj, end, field, lookup, or_null}
use claude_studio.Python.Result.{Result, ok, err, type_error}
use claude_studio.Python.Text.{strip, starts_with, contains}
use claude_studio.Python.Text.Lines.{splitlines, stdout_of}
use claude_studio.Runner.{has_status, run_module, exited, find_results}
use claude_studio.Probes.Steps.{Harness, Run, print_results}
use claude_studio.Probes.Steps.Verdicts.{run_module-print_results}
use claude_studio.Probes.Batch63.{main}
use claude_studio.Probes.Batch63.Notes.{KeptAfterRestart, main-F150}
use claude_studio.Probes.Batch63.Keeper.{KeepsNotes, main-passes}

abbrev note_in : Json → Json
note_in (obj fs) = or_null (lookup "note" fs)
note_in v = null

-- The state is the note.
abbrev answer : String → Json → Json → Result Json × Json
answer method payload note =
    if str_eq method "session.set_note"
    then (ok (obj end), note_in payload)
    else if str_eq method "session.get_note"
    then (ok (obj (field "note" note end)), note)
    else (ok (obj (field "id" (str "s1") end)), note)

abbrev notebook : Harness Json
notebook = record {
  root = "/repo";
  user_home = "/home";
  home = λ w. (ok "/tmp/home", w);
  mkdtemp = λ prefix w. (ok "/tmp/home", w);
  mktemp = λ suffix w. (ok "/tmp/file", w);
  read_file = λ path w. (ok "", w);
  write_file = λ path text w. (ok tt, w);
  file_exists = λ path w. (ok true, w);
  make_dir = λ path w. (ok tt, w);
  run_process = λ arguments settings w. (ok null, w);
  launch = λ at w. (ok tt, w);
  stop = λ w. w;
  connect = λ n w. (ok tt, w);
  request = answer;
  close = λ w. w;
  write_evidence = λ fid name text w. (ok "evidence", w);
  dumps = λ v. "{\"results\": {}}";
  pretty = λ v. "";
  repr = λ v. "";
  display = λ v. "";
  lower = λ s. s;
  format = λ f v. ok "";
  dumps_ascii = λ v. "";
  pretty_ascii = λ v. "";
  loads = λ v. ok null;
  plus = λ a b. err type_error;
  minus = λ a b. err type_error;
  error_text = λ e. "";
}

abbrev begin : Run Json
begin = record { results = end; printed = []; world = null }

notebook-KeepsNotes : KeepsNotes notebook (λ w. w) (str "s1")
notebook-KeepsNotes = record {
  known = refl;
  launched = λ at w. (refl, refl);
  stopped = λ w. refl;
  connected = λ w. (refl, refl);
  closed = λ w. refl;
  created = λ w. refl;
  noted = λ v w. (refl, refl);
  answered = λ w. (refl, refl);
  written = λ fid name text w. ("evidence", refl);
}

main-passes_example :
    (entry : Json) × (lookup "F150" (main notebook begin).1.results ≡ some entry)
    × (has_status "pass" entry ≡ true)
main-passes_example = main-passes notebook (λ w. w) (str "s1") notebook-KeepsNotes begin refl

main-F150_example :
    (entry : Json) × ((main notebook begin).0 ≡ ok tt)
    × ((main notebook begin).1.printed
        ≡ []
          ++ notebook.dumps (obj (field "results" (obj (main notebook begin).1.results) end)) ∷ [])
    × (lookup "F150" (main notebook begin).1.results ≡ some entry)
    × ((has_status "pass" entry ≡ true) ⊎ (has_status "fail" entry ≡ true))
    × (has_status "pass" entry ≡ true → KeptAfterRestart notebook "/tmp/home" null)
main-F150_example = main-F150 notebook begin refl

abbrev loads : String → Option Json
loads s = if str_eq s "{\"results\": {}}" then some (obj (field "results" (obj end) end)) else none

-- Something has been printed before.
abbrev printed_before : Run Json
printed_before = record begin { printed = "{\"results\"\nand more" ∷ " " ∷ [] }

run_module-print_results_example :
    run_module loads (exited (stdout_of (print_results notebook printed_before).1.printed))
    ≡ some (obj end)
unfolding strip starts_with contains
run_module-print_results_example =
    run_module-print_results notebook loads printed_before refl refl refl

splitlines_test : splitlines "a\n\nb c\n" ≡ "a" ∷ "" ∷ "b c" ∷ []
unfolding splitlines
splitlines_test = refl

-- A line separator (U+2028) inside a result cuts the line, and the results are lost.
run_module_test : run_module loads (exited "{\"results\": \u{2028}{}}\n") ≡ none
unfolding run_module find_results splitlines strip starts_with contains
run_module_test = refl
