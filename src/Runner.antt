-- ===== src/Runner.antt =====
-- The central runner, test-harness/lib/run_probes.py. What a probe's process printed is an
-- argument, `loads` stands for `json.loads` (`none`: it raises), and the printing is left out.
pub mod Strength
pub mod Marks
pub mod Total
use Prim.Native.String.{compare}
use Prim.Native.Nat.{Ordering}
use claude_studio.Prelude.{
  ℕ, ◌+◌, String, str_eq, Bool, true, false, not, ◌&&◌, ◌||◌, Option, none, some, List, [], ◌∷◌,
  ltb, if◌then◌else◌, elem,
}
use mathlib.Core.List.{reverse}
use claude_studio.Python.Json.{
  Json, null, bool, int, float, str, arr, obj, Fields, end, field, lookup, insert, is_text,
}
use claude_studio.Python.Result.{
  Result, ok, err, type_error, attribute_error, get, get_or, index, ◌>>=◌,
}
use claude_studio.Python.Text.{strip, starts_with, contains}
use claude_studio.Python.Text.Lines.{splitlines}
use claude_studio.Features.{Feature, mark_passing}

-- `line.startswith("{") and '"results"' in line`
abbrev pub is_candidate : String → Bool
is_candidate line = starts_with line "{" && contains "\"results\"" line

-- A probe's process: it ran into the timeout, or it ended with this standard output, in which each
-- `\r\n` and `\r` has become `\n` (`text=True`).
pub data Ran : Type 0 where
  timed_out : Ran
  exited : String → Ran

module _ (loads : String → Option Json) where
  -- The loop over the printed lines, the last one first: the `results` of the first line that has
  -- some, and `None` if there is no such line.
  unfoldable pub find_results : List String → Json
  find_results [] = null
  find_results (l ∷ ls) =
      let line = strip l in
      let rest = find_results ls in
      if is_candidate line
      then (elim (loads line) [
        | none ↦ rest
        | some v ↦ elim (index "results" v) [ ok res ↦ res | err _ ↦ rest ]
      ])
      else rest

  -- `none` stands for the error text that `run_module` returns in the place of results.
  unfoldable pub run_module : Ran → Option Json
  run_module timed_out = none
  run_module (exited stdout) = elim (find_results (reverse (splitlines (strip stdout)))) [
    | null ↦ none
    | res ↦ some res
  ]

pub record Counts : Type 0 where
  pub passed : ℕ
  pub failed : ℕ
  pub blocked : ℕ
  pub other : ℕ

abbrev pub no_counts : Counts
no_counts = record { passed = 0; failed = 0; blocked = 0; other = 0 }

-- `counts[st if st in counts else "other"] += 1`
unfoldable pub tally : Json → Counts → Counts
tally st c =
    if is_text "pass" st
    then record c { passed = c.passed + 1 }
    else if is_text "fail" st
    then record c { failed = c.failed + 1 }
    else if is_text "blocked" st
    then record c { blocked = c.blocked + 1 }
    else record c { other = c.other + 1 }

-- `rank.get(st, 0)`: a list or a dict is no key, and raises.
abbrev pub rank : Json → Result ℕ
rank (str s) = ok (
    if str_eq s "pass"
    then 3
    else if str_eq s "fail"
    then 2
    else if str_eq s "blocked"
    then 1
    else 0)
rank null = ok 0
rank (bool b) = ok 0
rank (int n) = ok 0
rank (float m e) = ok 0
rank (arr vs) = err type_error
rank (obj fs) = err type_error

-- `prev is None or rank.get(st, 0) > rank.get(prev.get("status"), 0)`
abbrev is_stronger : Option Json → ℕ → Result Bool
is_stronger none r = ok true
is_stronger (some prev) r = do st ← get "status" prev; r' ← rank st; ok (ltb r' r)

-- One round of the loop over a module's results.
unfoldable pub absorb : String → Json → Counts × Fields → Result (Counts × Fields)
absorb fid info (c, agg) = do
  st ← get_or "status" (str "other") info
  r ← rank st
  stronger ← is_stronger (lookup fid agg) r
  ok (tally st c, if stronger then insert fid info agg else agg)

unfoldable pub absorb_items : Fields → Counts × Fields → Result (Counts × Fields)
absorb_items end s = ok s
absorb_items (field fid info res) s = do s' ← absorb fid info s; absorb_items res s'

-- `res.items()`
abbrev pub as_dict : Json → Result Fields
as_dict (obj fs) = ok fs
as_dict null = err attribute_error
as_dict (bool b) = err attribute_error
as_dict (int n) = err attribute_error
as_dict (float m e) = err attribute_error
as_dict (str s) = err attribute_error
as_dict (arr vs) = err attribute_error

abbrev pub Report : Type 0
Report = List (String × Option Counts)

-- The loop over the modules: their names, each with what `run_module` gave.
unfoldable pub aggregate : List (String × Option Json) → Fields → Result (Report × Fields)
aggregate [] agg = ok ([], agg)
aggregate ((name, none) ∷ mods) agg = do
  (report, agg') ← aggregate mods agg
  ok ((name, none) ∷ report, agg')
aggregate ((name, some res) ∷ mods) agg = do
  items ← as_dict res
  (counts, agg1) ← absorb_items items (no_counts, agg)
  (report, agg') ← aggregate mods agg1
  ok ((name, some counts) ∷ report, agg')

-- `i.get("status") == s`, for an entry of `agg`, whose `get` has worked before.
abbrev pub has_status : String → Json → Bool
has_status s info = elim (get "status" info) [ ok st ↦ is_text s st | err _ ↦ false ]

unfoldable pub with_status : String → Fields → List String
with_status s end = []
with_status s (field fid info agg) =
    if has_status s info then fid ∷ with_status s agg else with_status s agg

-- Python orders texts by code points, as `compare` does.
insert_sorted : String → List String → List String
insert_sorted k [] = k ∷ []
insert_sorted k (j ∷ ks) = elim (compare k j) [
  | Ordering.gt ↦ j ∷ insert_sorted k ks
  | _ ↦ k ∷ j ∷ ks
]

-- `sorted(ks)`
unfoldable pub sorted : List String → List String
unfolding insert_sorted
sorted [] = []
sorted (k ∷ ks) = insert_sorted k (sorted ks)

-- `mods` of `main`: the modules to run, of the sorted ones in the folder.
unfoldable pub selected : List String → List String → List String
selected argv [] = []
selected argv (stem ∷ stems) =
    let rest = selected argv stems in
    if not (str_eq stem "__init__")
      && not (str_eq stem "foundation")
      && (elem stem argv || (elim argv [ [] ↦ true | _ ∷ _ ↦ false ]))
    then stem ∷ rest
    else rest

pub record Outcome : Type 0 where
  pub report : Report
  pub results : Fields
  pub passing : List String
  pub blocked : List String
  pub failing : List String
  pub features : List Feature

-- `main` behind the choice of the modules. The features are those of the file, before and after.
unfoldable pub run_main : Bool → List (String × Option Json) → List Feature → Result Outcome
run_main dry mods features = do
  (report, agg) ← aggregate mods end
  let passing = sorted (with_status "pass" agg)
  ok (record {
    report = report;
    results = agg;
    passing = passing;
    blocked = sorted (with_status "blocked" agg);
    failing = sorted (with_status "fail" agg);
    features = if dry then features else (mark_passing passing features).0;
  })
