-- ===== src/Runner/Marks.antt =====
-- Which features a run of the central runner makes pass.
use claude_studio.Prelude.{
  ℕ, ◌≤◌, ◌≡◌, refl, sym, ap, ◌∙◌, subst, String, str_eq, eq_iff, Bool, true, false, not, ◌&&◌,
  ◌||◌, Option, none, some, List, [], ◌∷◌, arith, ◌==◌, Bool-cases, inl, inr, elem,
}
use claude_studio.Python.Json.{
  Json, null, str, Fields, end, field, lookup, HasDistinctKeys, is_text,
}
use claude_studio.Python.Result.{Result, ok, err, get, ok-injective, >>=-inv, Result-cases}
use claude_studio.Features.{Feature, mark_passing}
use claude_studio.Features.Marking.{has, marked, mark_passing-eq}
use claude_studio.Runner.{
  rank, as_dict, aggregate, has_status, with_status, insert_sorted, sorted, Outcome, run_main,
}
use claude_studio.Runner.Strength.{
  rank_or_zero, status_rank, strength, strength_of, peak_items, peak, aggregate-strength,
}

-- A module's results report a pass of the feature.
abbrev pub pass_in : String → Fields → Bool
pass_in fid end = false
pass_in fid (field k info res) = (str_eq k fid && has_status "pass" info) || pass_in fid res

abbrev pub pass_in_result : String → Result Fields → Bool
pass_in_result fid (ok res) = pass_in fid res
pass_in_result fid (err _) = false

-- Some module of the run reports a pass of the feature.
abbrev pub reported_pass : String → List (String × Option Json) → Bool
reported_pass fid [] = false
reported_pass fid ((name, none) ∷ mods) = reported_pass fid mods
reported_pass fid ((name, some res) ∷ mods) =
    pass_in_result fid (as_dict res) || reported_pass fid mods

-- The list in which a feature passes if it did, or if `p` holds of its id and no later entry has
-- the same id.
abbrev pub promoted : (String → Bool) → List Feature → List Feature
promoted p [] = []
promoted p (f ∷ fs) =
    record f { passes = f.passes || (p f.id && not (has f.id fs)) } ∷ promoted p fs

marked-promoted :
    (p : String → Bool) (ks : List String) (fs : List Feature)
    → ((k : String) → elem k ks ≡ p k)
    → marked ks fs ≡ promoted p fs
marked-promoted p ks [] h = refl
marked-promoted p ks (f ∷ fs) h = ground (arith, h f.id, marked-promoted p ks fs h)

elem-insert_sorted :
    (i k : String) (ks : List String) → elem i (insert_sorted k ks) ≡ str_eq k i || elem i ks
unfolding insert_sorted
elem-insert_sorted i k [] = refl
elem-insert_sorted i k (j ∷ ks) = ground (arith, elem-insert_sorted i k ks)

elem-sorted : (i : String) (ks : List String) → elem i (sorted ks) ≡ elem i ks
unfolding sorted
elem-sorted i [] = refl
elem-sorted i (k ∷ ks) =
    elem-insert_sorted i k (sorted ks) ∙ ap (λ b. str_eq k i || b) (elem-sorted i ks)

abbrev found_with : String → Option Json → Bool
found_with s none = false
found_with s (some info) = has_status s info

elem-with_status :
    (k s : String) (agg : Fields)
    → HasDistinctKeys agg
    → elem k (with_status s agg) ≡ found_with s (lookup k agg)
unfolding with_status
elem-with_status k s end h = refl
elem-with_status k s (field j info agg) h = elim (Bool-cases (str_eq j k)) [
  | inl same ↦
      let e : lookup k agg ≡ none = subst (λ i. lookup i agg ≡ none) ((eq_iff j k).0 same) h.0 in
      ground (arith, elem-with_status k s agg h.1)
  | inr other ↦ ground (arith, elem-with_status k s agg h.1)
]

-- The strongest status is `pass`, and it alone has strength 3.
abbrev is_pass : ℕ → Bool
is_pass r = r == 3

rank-is_pass : (st : Json) → is_text "pass" st ≡ is_pass (rank_or_zero (rank st))
rank-is_pass (str s) = ground arith
rank-is_pass null = refl
rank-is_pass _ = refl

status_rank-is_pass :
    (r : Result Json)
    → elim r as (λ _. Bool) [ ok st ↦ is_text "pass" st | err _ ↦ false ] ≡ is_pass (status_rank r)
status_rank-is_pass (ok st) = rank-is_pass st
status_rank-is_pass (err e) = refl

has_status-strength : (info : Json) → has_status "pass" info ≡ is_pass (strength info)
has_status-strength info = status_rank-is_pass (get "status" info)

rank-le : (st : Json) → rank_or_zero (rank st) ≤ 3
rank-le (str s) = ground arith
rank-le null = omega arith
rank-le _ = omega arith

strength-le : (info : Json) → strength info ≤ 3
strength-le info = bound (get "status" info)
  where
    bound : (r : Result Json) → status_rank r ≤ 3
    bound (ok st) = rank-le st
    bound (err e) = omega arith

peak_items-le : (k : String) (res : Fields) → peak_items k res ≤ 3
peak_items-le k end = omega arith
peak_items-le k (field j info res) = ground (arith, strength-le info, peak_items-le k res)

peak_items-is_pass : (k : String) (res : Fields) → is_pass (peak_items k res) ≡ pass_in k res
peak_items-is_pass k end = refl
peak_items-is_pass k (field j info res) = ground (
  arith,
  strength-le info,
  peak_items-le k res,
  has_status-strength info,
  peak_items-is_pass k res,
)

peak-le : (k : String) (mods : List (String × Option Json)) → peak k mods ≤ 3
peak-le k [] = omega arith
peak-le k ((name, none) ∷ mods) = peak-le k mods
peak-le k ((name, some res) ∷ mods) = elim (Result-cases (as_dict res)) [
  | inl (fs, e) ↦ rw e (omega (arith, peak_items-le k fs, peak-le k mods))
  | inr (x, e) ↦ rw e (omega (arith, peak-le k mods))
]

peak-is_pass :
    (k : String) (mods : List (String × Option Json)) → is_pass (peak k mods) ≡ reported_pass k mods
peak-is_pass k [] = refl
peak-is_pass k ((name, none) ∷ mods) = peak-is_pass k mods
peak-is_pass k ((name, some res) ∷ mods) = elim (Result-cases (as_dict res)) [
  | inl (fs, e) ↦ rw e (
      ground
        (arith, peak_items-le k fs, peak-le k mods, peak_items-is_pass k fs, peak-is_pass k mods))
  | inr (x, e) ↦ rw e (ground (arith, peak-is_pass k mods))
]

found_with-strength : (o : Option Json) → found_with "pass" o ≡ is_pass (strength_of o)
found_with-strength none = refl
found_with-strength (some info) = has_status-strength info

-- When a run ends, a feature is in its list of passing ones exactly if some module's results report
-- it with the status pass.
pub run_main-passing :
    (dry : Bool) (mods : List (String × Option Json)) (fs : List Feature) {out : Outcome}
    → run_main dry mods fs ≡ ok out
    → (k : String) → elem k out.passing ≡ reported_pass k mods
unfolding run_main
run_main-passing dry mods fs {out} h k =
    let ((report, agg), p, h1) = >>=-inv (aggregate mods end) _ h in
    let e : sorted (with_status "pass" agg) ≡ out.passing = ap (λ o. o.passing) (ok-injective h1) in
    let (keys, strong) = aggregate-strength mods report end agg p in
    let strongest : strength_of (lookup k agg) ≡ peak k mods = strong k ∙ omega arith in
    ap (elem k) (sym e)
    ∙ elem-sorted k (with_status "pass" agg)
    ∙ elem-with_status k "pass" agg (keys tt)
    ∙ found_with-strength (lookup k agg)
    ∙ ap is_pass strongest
    ∙ peak-is_pass k mods

-- A run that ends writes the feature list back in which exactly the features that some module
-- reported as passed have been made to pass (the last entry of each id); a dry run writes nothing.
pub run_main-features :
    (mods : List (String × Option Json)) (fs : List Feature) {out dry_out : Outcome}
    → run_main false mods fs ≡ ok out
    → run_main true mods fs ≡ ok dry_out
    → (out.features ≡ promoted (λ k. reported_pass k mods) fs) × (dry_out.features ≡ fs)
unfolding run_main
run_main-features mods fs {out} {dry_out} h d =
    let (_, p, h1) = >>=-inv (aggregate mods end) _ h in
    let (_, q, d1) = >>=-inv (aggregate mods end) _ d in
    let marks : (mark_passing out.passing fs).0 ≡ out.features =
      ap (λ ks. (mark_passing ks fs).0) (sym (ap (λ o. o.passing) (ok-injective h1)))
      ∙ ap (λ o. o.features) (ok-injective h1) in
    (
      sym marks
          ∙ mark_passing-eq out.passing fs
          ∙ marked-promoted _ out.passing fs (run_main-passing false mods fs h),
      sym (ap (λ o. o.features) (ok-injective d1)),
    )
