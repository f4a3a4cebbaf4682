-- ===== src/Tests/Features.antt =====
-- The central runner on three modules, one of which ran into its timeout.
use Prim.Native.Nat.{max}
use claude_studio.Prelude.{
  if◌then◌else◌, ◌+◌, ◌≡◌, refl, String, Bool, true, false, Option, none, some, List, [], ◌∷◌, elem,
}
use claude_studio.Python.Json.{Json, str, obj, end, field, lookup, HasDistinctKeys}
use claude_studio.Python.Result.{ok}
use claude_studio.Features.{Feature, by_id, mark, mark_all, mark_passing}
use claude_studio.Features.Marking.{marked, count_passing, mark_passing-eq, mark_passing-count}
use claude_studio.Runner.{
  Outcome, aggregate, run_main, absorb, absorb_items, with_status, sorted, tally,
}
use claude_studio.Runner.Strength.{strength_of, peak, aggregate-strength}
use claude_studio.Runner.Total.{AreReadable, run_main-promoted}
use claude_studio.Runner.Marks.{reported_pass, promoted, run_main-passing, run_main-features}

abbrev status : String → Json
status s = obj (field "status" (str s) end)

-- `git` passes F001 and fails F002, `hooks` gave nothing, `memory` blocks F001 and passes F003.
abbrev mods : List (String × Option Json)
mods =
    ("git", some (obj (field "F001" (status "pass") (field "F002" (status "fail") end))))
    ∷ ("hooks", none)
    ∷ ("memory", some (obj (field "F001" (status "blocked") (field "F003" (status "pass") end))))
    ∷ []

abbrev feature : String → Bool → Feature
feature id passes = record { id = id; passes = passes; others = end }

abbrev features : List Feature
features =
    feature "F003" false ∷ feature "F001" true ∷ feature "F002" false ∷ feature "F003" false ∷ []

mark_passing_test : (mark_passing ("F003" ∷ "F001" ∷ []) features).1 ≡ 1
unfolding mark_passing mark_all mark by_id
mark_passing_test = refl

mark_passing-eq_example : (mark_passing ("F003" ∷ []) features).0 ≡ marked ("F003" ∷ []) features
mark_passing-eq_example = mark_passing-eq ("F003" ∷ []) features

mark_passing-count_example :
    (mark_passing ("F003" ∷ []) features).1 + count_passing features
    ≡ count_passing (mark_passing ("F003" ∷ []) features).0
mark_passing-count_example = mark_passing-count ("F003" ∷ []) features

-- What a run over those modules ends with.
abbrev outcome : Bool → Outcome
outcome dry = record {
  report =
      ("git", some (record { passed = 1; failed = 1; blocked = 0; other = 0 }))
      ∷ ("hooks", none)
      ∷ ("memory", some (record { passed = 1; failed = 0; blocked = 1; other = 0 }))
      ∷ [];
  results =
      field "F001" (status "pass")
        (field "F002" (status "fail") (field "F003" (status "pass") end));
  passing = "F001" ∷ "F003" ∷ [];
  blocked = [];
  failing = "F002" ∷ [];
  features =
      feature "F003" false
      ∷ feature "F001" true
      ∷ feature "F002" false
      ∷ feature "F003" (if dry then false else true)
      ∷ [];
}

run_main_test : run_main false mods features ≡ ok (outcome false)
unfolding run_main aggregate absorb_items absorb with_status sorted tally mark_passing mark_all mark
    by_id
run_main_test = refl

run_main_dry_test : run_main true mods features ≡ ok (outcome true)
unfolding run_main aggregate absorb_items absorb with_status sorted tally mark_passing mark_all mark
    by_id
run_main_dry_test = refl

run_main-features_example :
    ((outcome false).features ≡ promoted (λ k. reported_pass k mods) features)
    × ((outcome true).features ≡ features)
run_main-features_example = run_main-features mods features run_main_test run_main_dry_test

run_main-passing_example : elem "F001" (outcome false).passing ≡ reported_pass "F001" mods
run_main-passing_example = run_main-passing false mods features run_main_test "F001"

aggregate_test : aggregate mods end ≡ ok ((outcome false).report, (outcome false).results)
unfolding aggregate absorb_items absorb tally
aggregate_test = refl

aggregate-strength_example :
    (HasDistinctKeys end → HasDistinctKeys (outcome false).results)
    × ((k : String)
        → strength_of (lookup k (outcome false).results)
          ≡ max (strength_of (lookup k end)) (peak k mods))
aggregate-strength_example =
    aggregate-strength mods (outcome false).report end (outcome false).results aggregate_test

mods-AreReadable : AreReadable mods
mods-AreReadable = (
  (_, refl, ((_, 3, refl, refl), ((_, 2, refl, refl), tt))),
  ((_, refl, ((_, 1, refl, refl), ((_, 3, refl, refl), tt))), tt),
)

run_main-promoted_example :
    (out : Outcome) × (run_main false mods features ≡ ok out)
    × (out.features ≡ promoted (λ k. reported_pass k mods) features)
run_main-promoted_example = run_main-promoted false mods features mods-AreReadable
