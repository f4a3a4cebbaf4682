-- ===== src/Tests/Core.antt =====
-- A core that gives one reply to every request, as a `Harness`.
use claude_studio.Prelude.{ℕ, suc, String, true, []}
use claude_studio.Python.Json.{Json, null, str, obj, end, field}
use claude_studio.Python.Result.{Result, ok, err, type_error}
use claude_studio.Python.Stateful.{Stateful}
use claude_studio.Probes.Steps.{Harness, Run}

abbrev pub core : {W : Type 0} → Result (Unit {0}) → (String → Json → Stateful W Json) → Harness W
core launch request = record {
  root = "/repo";
  user_home = "/home";
  home = λ w. (ok "/tmp/home", w);
  mkdtemp = λ prefix w. (ok "/tmp/dir", w);
  mktemp = λ suffix w. (ok "/tmp/file", w);
  read_file = λ path w. (ok "", w);
  write_file = λ path text w. (ok tt, w);
  file_exists = λ path w. (ok true, w);
  make_dir = λ path w. (ok tt, w);
  run_process = λ arguments settings w. (ok null, w);
  launch = λ at w. (launch, w);
  stop = λ w. w;
  connect = λ n w. (ok tt, w);
  request = request;
  close = λ w. w;
  write_evidence = λ fid name text w. (ok name, w);
  dumps = λ v. "{\"results\": {}}";
  dumps_ascii = λ v. "";
  pretty = λ v. "";
  pretty_ascii = λ v. "";
  loads = λ v. ok null;
  repr = λ v. "";
  display = λ v. "";
  lower = λ s. s;
  format = λ f v. ok "";
  plus = λ a b. err type_error;
  minus = λ a b. err type_error;
  error_text = λ e. "";
}

abbrev pub same_reply : Result Json
same_reply = ok (
    obj (
      field "decision" (str "ask")
        (field "action" (str "pause") (field "provider" (str "anthropic") end))))

-- It counts the requests in its world.
abbrev pub counting : Result Json → String → Json → Stateful ℕ Json
counting answer method payload w = (answer, suc w)

abbrev pub up : Harness ℕ
up = core (ok tt) (counting same_reply)

abbrev pub begin : Run ℕ
begin = record { results = end; printed = []; world = 0 }
