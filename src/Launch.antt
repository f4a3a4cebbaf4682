-- ===== src/Launch.antt =====
-- `running_core` of test-harness/lib/cs_probe.py: what it finds outside is a `Site`, what it does
-- there is a list of effects in their order.
pub mod Cleanup
use claude_studio.Prelude.{
  ℕ, zero, suc, ◌+◌, String, str_append, Bool, true, false, not, ◌&&◌, Option, none, some, List, [],
  ◌∷◌, ◌++◌, if◌then◌else◌, str_eq,
}
use claude_studio.Python.Json.{Json, str, Fields, end, field, insert, lookup}
use claude_studio.Python.Result.{
  Exception, Result, ok, err, file_not_found, runtime_error, timeout_error,
}

pub record Settings : Type 0 where
  pub home : Option String
  pub library_dir : Option String
  pub log_path : Option String
  pub env_extra : Fields
  pub seed_models : Bool

pub data Effect : Type 0 where
  make_temp : Effect
  make_folder : String → Effect
  link_models : String → Effect
  unlink : String → Effect
  open_log : String → Effect
  start : String → String → Fields → Effect
  sleep : ℕ → Effect
  terminate wait kill close_log : Effect
  remove_tree : String → Effect

-- What the calls find: the name of the temporary directory, the folder of the models, the process,
-- and whether it ends within five seconds of `terminate`. `appears k` is what the check number k of
-- the socket finds after the start, `polled k` the return code's text that poll number k finds.
pub record Site : Type 0 where
  pub temp : String
  pub environ : Fields
  pub has_models : Bool
  pub has_link : Bool
  pub has_socket : Bool
  pub core_bin : String
  pub has_core : Bool
  pub start_fails : Option Exception
  pub appears : ℕ → Bool
  pub polled : ℕ → Option String
  pub wait_times_out : Bool

-- `env.pop(k, None)`
abbrev pub without : String → Fields → Fields
without k end = end
without k (field j v fs) = if str_eq j k then without k fs else field j v (without k fs)

-- `env.update(extra)`
abbrev pub updated : Fields → Fields → Fields
updated env end = env
updated env (field k v extra) = updated (insert k v env) extra

-- `env` of the process.
abbrev pub core_env : Site → Settings → String → Fields
core_env site at home =
    let base = insert "HOME" (str home) site.environ in
    let level : Json = elim (lookup "RUST_LOG" base) [ none ↦ str "info" | some v ↦ v ] in
    let env = without "CLAUDESTUDIO_WATCH_STDIN" (insert "RUST_LOG" level base) in
    let with_library : Fields = elim at.library_dir [
      | none ↦ env
      | some dir ↦ insert "CLAUDESTUDIO_LIBRARY_DIR" (str dir) env
    ] in
    updated with_library at.env_extra

abbrev pub log_name : Option String → String
log_name none = "None"
log_name (some path) = path

-- The loop that waits for the socket, from check number `i` on: how many checks it has made.
unfoldable pub wait_loop : Site → Settings → ℕ → ℕ → Result ℕ × List Effect
wait_loop site at zero i = (ok i, [])
wait_loop site at (suc rounds) i =
    let (r, later) = wait_loop site at rounds (i + 1) in
    if site.appears i then (ok (i + 1), []) else elim (site.polled i) [
      | none ↦ (r, sleep 100 ∷ later)
      | some code ↦ (
        err (
            runtime_error (
              str_append "core exited early (code "
                (str_append code (str_append ") — see " (log_name at.log_path))))),
        [],
      )
    ]

-- What follows the loop, up to the `yield`.
abbrev pub after_loop : Site → Result ℕ × List Effect → Result (Unit {0}) × List Effect
after_loop site (err e, waited) = (err e, waited)
after_loop site (ok checks, waited) =
    if site.appears checks
    then (ok tt, waited ++ sleep 200 ∷ [])
    else (err (timeout_error "core socket did not appear within 10s"), waited)

-- The `try` block up to the `yield`.
unfoldable pub ready : Site → Settings → Result (Unit {0}) × List Effect
ready site at = after_loop site (wait_loop site at 100 0)

-- The `finally` block.
unfoldable pub cleanup : Site → Settings → List Effect
cleanup site at =
    terminate ∷ wait ∷ (if site.wait_times_out then kill ∷ [] else [])
    ++ (elim at.log_path [ none ↦ [] | some _ ↦ close_log ∷ [] ])
    ++ (elim at.home [ none ↦ remove_tree site.temp ∷ [] | some _ ↦ [] ])

abbrev pub home_of : Site → Settings → String
home_of site at = elim at.home [ none ↦ site.temp | some home ↦ home ]

abbrev pub socket_of : Site → Settings → String
socket_of site at = str_append (home_of site at) "/core.sock"

-- The `Popen`.
abbrev pub started : Site → Settings → Effect
started site at = start site.core_bin (socket_of site at) (core_env site at (home_of site at))

-- What is done before the core's binary is looked for.
unfoldable pub prepare : Site → Settings → List Effect
prepare site at =
    let home = home_of site at in
    (elim at.home [
      | some _ ↦ []
      | none ↦
          make_temp
          ∷ (if at.seed_models && site.has_models
              then make_folder (str_append home "/.claudestudio")
                ∷ (if site.has_link
                    then []
                    else link_models (str_append home "/.claudestudio/models") ∷ [])
              else [])
    ])
    ++ (if site.has_socket then unlink (socket_of site at) ∷ [] else [])

-- `open(log_path, "w") if log_path else subprocess.DEVNULL`
abbrev pub open_log_file : Settings → List Effect
open_log_file at = elim at.log_path [ none ↦ [] | some path ↦ open_log path ∷ [] ]

-- `with running_core(...): body`; `body` is how the body ends and what it does.
unfoldable pub running_core :
    {A : Type 0} → Site → Settings → Result A × List Effect → Result A × List Effect
running_core site at (result, body) =
    let before = prepare site at in
    let opened = open_log_file at in
    if not site.has_core
    then (
      err (
          file_not_found (
            str_append "core binary missing: "
              (str_append site.core_bin " — run `cargo build -p cs-cli`"))),
      before,
    )
    else elim site.start_fails [
      | some e ↦ (err e, before ++ opened)
      | none ↦
          let (r, waited) = ready site at in
          elim r [
            | err e ↦ (err e, before ++ opened ++ started site at ∷ waited ++ cleanup site at)
            | ok _ ↦
                (result, before ++ opened ++ started site at ∷ waited ++ body ++ cleanup site at)
          ]
    ]
