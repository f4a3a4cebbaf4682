-- ===== src/Probes/Steps.antt =====
-- The frame of every probe module of test-harness/probes: `record`, `ev`, the `try` that turns an
-- exception into a failed feature, and the last line that the runner reads. What a probe does to
-- the world (the core, the files) goes through a `Harness`.
pub mod Verdicts
pub mod Passes
pub mod Shared
pub mod Reports
use claude_studio.Prelude.{
  ℕ, String, Bool, true, false, Option, none, some, List, [], ◌∷◌, ◌++◌, not, if◌then◌else◌,
}
use claude_studio.Prelude.Int.{pos}
use claude_studio.Python.Json.{Json, str, int, obj, Fields, end, field, insert, lookup}
use claude_studio.Python.Dynamic.{Table, item}
use claude_studio.Python.Values.{value_eq}
use claude_studio.Python.Result.{
  Exception, Result, ok, err, assertion_error, attribute_error, called_process_error,
}
pub use claude_studio.Launch.{Settings}
pub use claude_studio.Probes.Harness.{Harness}
use claude_studio.Python.Stateful.{Stateful, ◌>>=◌, ◌>>◌, pure, lift, raise_if}

-- `results` of a module and what it has printed, with the world.
pub record Run (W : Type 0) : Type 0 where
  pub results : Fields
  pub printed : List String
  pub world : W

-- `assert b, message`
abbrev pub check : {S : Type 0} → Bool → String → Stateful S (Unit {0})
check b message = raise_if (if b then false else true) (assertion_error message)

-- The entry that `record` writes.
abbrev pub report : String → String → String → Json
report status evidence note =
    obj
      (field "status" (str status) (field "evidence" (str evidence) (field "note" (str note) end)))

-- `fid in results`
abbrev pub is_reported : String → Fields → Bool
is_reported fid results = elim (lookup fid results) [ none ↦ false | some _ ↦ true ]

module _ {W : Type 0} (h : Harness W) where
  -- `with P.running_core(...) as ctx:`; the core is stopped however the body ends.
  unfoldable pub with_core : {A : Type 0} → Settings → Stateful W A → Stateful W A
  with_core settings body w =
      let (started, w1) = h.launch settings w in
      let (r, w2) = body w1 in elim started [ err e ↦ (err e, w1) | ok _ ↦ (r, h.stop w2) ]

  -- What an f-string shows of a value.
  abbrev pub shown : Json → String
  shown (str s) = s
  shown v = h.display v

  abbrev pub text_of : Json → String
  text_of (str s) = s
  text_of v = h.pretty v

  -- `ev`
  abbrev pub ev : String → String → Json → Stateful W String
  ev fid name content = h.write_evidence fid name (text_of content)

  abbrev pub close : Stateful W (Unit {0})
  close w = (ok tt, h.close w)

  -- `record`
  unfoldable pub record_result : String → String → String → String → Stateful (Run W) (Unit {0})
  record_result fid status evidence note s =
      (ok tt, record s { results = insert fid (report status evidence note) s.results })

  -- A part of `main` that does not touch `results`.
  abbrev pub on_world : {A : Type 0} → Stateful W A → Stateful (Run W) A
  on_world m s = let (r, w) = m s.world in (r, record s { world = w })

  -- `try: ...; record(fid, "pass", evidence, note)` with `except Exception as e:
  -- record(fid, "fail", note=str(e))`.
  unfoldable pub attempt : String → Stateful W (String × String) → Stateful (Run W) (Unit {0})
  attempt fid body s =
      let (r, s') = on_world body s in
      elim r [
        | ok (evidence, note) ↦ record_result fid "pass" evidence note s'
        | err e ↦ record_result fid "fail" "" (h.error_text e) s'
      ]

  -- The same where the body says what the status is.
  unfoldable pub attempt_with :
      String → Stateful W (String × String × String) → Stateful (Run W) (Unit {0})
  attempt_with fid body s =
      let (r, s') = on_world body s in
      elim r [
        | ok (status, evidence, note) ↦ record_result fid status evidence note s'
        | err e ↦ record_result fid "fail" "" (h.error_text e) s'
      ]

  -- `try: ...` with `except Exception as e: ...`, neither of which records a result.
  abbrev pub rescue :
      Stateful W (Unit {0}) → (String → Stateful W (Unit {0})) → Stateful W (Unit {0})
  rescue body handler w =
      let (r, w') = body w in elim r [ ok _ ↦ (ok tt, w') | err e ↦ handler (h.error_text e) w' ]

  -- `subprocess.run(arguments, check=True)`
  abbrev pub run_checked : List String → Stateful W (Unit {0})
  run_checked arguments = do
    r ← h.run_process arguments end
    code ← item r "returncode"
    raise_if (not (value_eq code (int (pos 0)))) called_process_error

  -- `v.lower()`
  abbrev pub lowered : Json → Stateful W Json
  lowered v = lift (elim v [ str s ↦ ok (str (h.lower s)) | _ ↦ err attribute_error ])

  -- A dict as a value: `json.dumps` makes texts of its keys.
  abbrev key_name : Json → String
  key_name (str s) = s
  key_name k = h.dumps k

  abbrev pub table_fields : Table → Fields
  table_fields [] = end
  table_fields ((k, v) ∷ rest) = field (key_name k) v (table_fields rest)

  abbrev pub table_json : Table → Json
  table_json t = obj (table_fields t)

  -- `for fid in fids: if fid not in results: record(fid, "fail", note=str(e))`
  unfoldable pub fail_missing : List String → String → Stateful (Run W) (Unit {0})
  fail_missing [] note = pure tt
  fail_missing (fid ∷ fids) note = λ s.
      let (r, s') =
        if is_reported fid s.results then (ok tt, s) else record_result fid "fail" "" note s in
      fail_missing fids note s'

  -- A `try` whose body records several features, each as soon as it has passed.
  unfoldable pub attempt_each :
      List String → Stateful (Run W) (Unit {0}) → Stateful (Run W) (Unit {0})
  attempt_each fids body s =
      let (r, s') = body s in
      elim r [ ok _ ↦ (ok tt, s') | err e ↦ fail_missing fids (h.error_text e) s' ]

  -- `print(json.dumps({"results": results}))`
  unfoldable pub print_results : Stateful (Run W) (Unit {0})
  print_results s = (
    ok tt,
    record s { printed = s.printed ++ h.dumps (obj (field "results" (obj s.results) end)) ∷ [] },
  )

  -- `with P.running_core(...) as ctx:` over a part of `main`.
  unfoldable pub in_core : {A : Type 0} → Settings → Stateful (Run W) A → Stateful (Run W) A
  in_core settings body s =
      let (started, w1) = h.launch settings s.world in
      let (r, s2) = body (record s { world = w1 }) in
      elim started [
        | err e ↦ (err e, record s { world = w1 })
        | ok _ ↦ (r, record s2 { world = h.stop s2.world })
      ]

  -- The `try` blocks of a module, one for each feature, in their order.
  unfoldable pub attempts :
      List (String × Stateful W (String × String)) → Stateful (Run W) (Unit {0})
  attempts [] = pure tt
  attempts ((fid, body) ∷ rest) = attempt fid body >> attempts rest

  -- A `main` of the plain form, whose features stand side by side, each in a `try` of its own: with a core, `c = P.Client(ctx["sock"], timeout)`,
  -- the `try` blocks, `c.close()`, and the results behind it.
  unfoldable pub probe_main :
      Settings → ℕ → List (String × Stateful W (String × String)) → Stateful (Run W) (Unit {0})
  probe_main settings timeout claims = do
    in_core settings (on_world (h.connect timeout) >> attempts claims >> on_world close)
    print_results
