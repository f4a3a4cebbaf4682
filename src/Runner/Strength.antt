-- ===== src/Runner/Strength.antt =====
-- The aggregate keeps, for each feature, the strongest status that any module has reported.
use Prim.Native.Nat.{max}
use claude_studio.Prelude.{
  ℕ, ◌≤◌, ◌≡◌, ap, ◌∙◌, subst, String, str_eq, eq_iff, Bool, true, false, Option, none, some, List,
  [], ◌∷◌, arith, ltb, if◌then◌else◌, Bool-cases, Option-cases, inl, inr,
}
use claude_studio.Python.Json.{
  Json, str, obj, Fields, end, field, lookup, insert, lookup-insert, HasDistinctKeys,
  insert-HasDistinctKeys,
}
use claude_studio.Python.Result.{Result, ok, err, get, get_or, ok-injective, >>=-inv}
use claude_studio.Runner.{
  Counts, no_counts, rank, is_stronger, absorb, absorb_items, as_dict, Report, aggregate,
}

abbrev pub rank_or_zero : Result ℕ → ℕ
rank_or_zero (ok r) = r
rank_or_zero (err _) = 0

abbrev pub status_rank : Result Json → ℕ
status_rank (ok st) = rank_or_zero (rank st)
status_rank (err _) = 0

-- How strong a report is: 3 for pass, 2 for fail, 1 for blocked, 0 for anything else.
abbrev pub strength : Json → ℕ
strength info = status_rank (get "status" info)

abbrev pub strength_of : Option Json → ℕ
strength_of none = 0
strength_of (some info) = strength info

-- The strongest report on `fid` among the results of one module.
abbrev pub peak_items : String → Fields → ℕ
peak_items fid end = 0
peak_items fid (field k info res) =
    max (if str_eq k fid then strength info else 0) (peak_items fid res)

abbrev pub peak_result : String → Result Fields → ℕ
peak_result fid (ok res) = peak_items fid res
peak_result fid (err _) = 0

-- The strongest report on `fid` among all modules; a module that gave no results reports nothing.
abbrev pub peak : String → List (String × Option Json) → ℕ
peak fid [] = 0
peak fid ((name, none) ∷ mods) = peak fid mods
peak fid ((name, some res) ∷ mods) = max (peak_result fid (as_dict res)) (peak fid mods)

get_or-rank :
    (info : Json) {st : Json} {r : ℕ}
    → get_or "status" (str "other") info ≡ ok st
    → rank st ≡ ok r
    → strength info ≡ r
get_or-rank (obj fs) {st} {r} h q = elim (Option-cases (lookup "status" fs)) [
  | inl e ↦
      let same : ok (str "other") ≡ ok st = rw e at h in
      let other : rank (str "other") ≡ ok r = ap rank (ok-injective same) ∙ q in
      rw e (ok-injective other)
  | inr (v, e) ↦
      let same : ok v ≡ ok st = rw e at h in
      rw e (ap rank_or_zero (ap rank (ok-injective same) ∙ q))
]
get_or-rank info h q = cc

-- A report replaces the one before only if it is stronger.
is_stronger-order :
    (o : Option Json) (r : ℕ) {b : Bool}
    → is_stronger o r ≡ ok b
    → (b ≡ true → strength_of o ≤ r) × (b ≡ false → r ≤ strength_of o)
is_stronger-order none r h = (λ _. omega arith, λ e. cc)
is_stronger-order (some prev) r {b} h =
    let (st, p, h1) = >>=-inv (get "status" prev) _ h in
    let (r', q, h2) = >>=-inv (rank st) _ h1 in
    let e : strength prev ≡ r' = ap status_rank p ∙ ap rank_or_zero q in
    let t : ltb r' r ≡ b = ok-injective h2 in (λ b'. rw e (ground arith), λ b'. rw e (ground arith))

absorb-strength :
    (fid : String) (info : Json) (c c' : Counts) (agg agg' : Fields)
    → absorb fid info (c, agg) ≡ ok (c', agg')
    → (HasDistinctKeys agg → HasDistinctKeys agg')
      × ((k : String)
          → strength_of (lookup k agg')
            ≡ max (strength_of (lookup k agg)) (if str_eq fid k then strength info else 0))
unfolding absorb
absorb-strength fid info c c' agg agg' h =
    let (st, p, h1) = >>=-inv (get_or "status" (str "other") info) _ h in
    let (r, q, h2) = >>=-inv (rank st) _ h1 in
    let (stronger, s, h3) = >>=-inv (is_stronger (lookup fid agg) r) _ h2 in
    let same : (if stronger then insert fid info agg else agg) ≡ agg' =
      ap (λ t. t.1) (ok-injective h3) in
    let mine : strength info ≡ r = get_or-rank info p q in
    let (up, down) = is_stronger-order (lookup fid agg) r s in
    elim (Bool-cases stronger) [
      | inl b ↦
          let taken : insert fid info agg ≡ agg' = rw b at same in
          (
            λ d. subst HasDistinctKeys taken (insert-HasDistinctKeys fid info agg d),
            λ k.
                rw (← taken, lookup-insert fid k info agg)
                  (ground (
                    arith,
                    eq_iff fid k,
                    up b,
                    λ (e : fid ≡ k). ap (λ i. strength_of (lookup i agg)) e,
                  )),
          )
      | inr b ↦
          let kept : agg ≡ agg' = rw b at same in
          (
            λ d. subst HasDistinctKeys kept d,
            λ k. rw (← kept) (
                ground (
                  arith,
                  eq_iff fid k,
                  down b,
                  λ (e : fid ≡ k). ap (λ i. strength_of (lookup i agg)) e,
                )),
          )
    ]

absorb_items-strength :
    (res : Fields) (c c' : Counts) (agg agg' : Fields)
    → absorb_items res (c, agg) ≡ ok (c', agg')
    → (HasDistinctKeys agg → HasDistinctKeys agg')
      × ((k : String)
          → strength_of (lookup k agg') ≡ max (strength_of (lookup k agg)) (peak_items k res))
unfolding absorb_items
absorb_items-strength end c c' agg agg' h =
    let e : agg ≡ agg' = ap (λ t. t.1) (ok-injective h) in
    (λ d. subst HasDistinctKeys e d, λ k. rw e (omega arith))
absorb_items-strength (field fid info res) c c' agg agg' h =
    let ((c1, agg1), p, h1) = >>=-inv (absorb fid info (c, agg)) (absorb_items res) h in
    let (d1, s1) = absorb-strength fid info c c1 agg agg1 p in
    let (d2, s2) = absorb_items-strength res c1 c' agg1 agg' h1 in
    (λ d. d2 (d1 d), λ k. rw (s2 k, s1 k) (omega arith))

-- Whatever the modules report, the aggregate's status of a feature is as strong as the strongest
-- report on it, and the aggregate lists no feature twice.
pub aggregate-strength :
    (mods : List (String × Option Json)) (report : Report) (agg agg' : Fields)
    → aggregate mods agg ≡ ok (report, agg')
    → (HasDistinctKeys agg → HasDistinctKeys agg')
      × ((k : String)
          → strength_of (lookup k agg') ≡ max (strength_of (lookup k agg)) (peak k mods))
unfolding aggregate
aggregate-strength [] report agg agg' h =
    let e : agg ≡ agg' = ap (λ t. t.1) (ok-injective h) in
    (λ d. subst HasDistinctKeys e d, λ k. rw e (omega arith))
aggregate-strength ((name, none) ∷ mods) report agg agg' h =
    let ((report1, agg1), p, h1) = >>=-inv (aggregate mods agg) _ h in
    let e : agg1 ≡ agg' = ap (λ t. t.1) (ok-injective h1) in
    aggregate-strength mods report1 agg agg' (p ∙ ap (λ a. ok (report1, a)) e)
aggregate-strength ((name, some res) ∷ mods) report agg agg' h =
    let (items, o, h1) = >>=-inv (as_dict res) _ h in
    let ((counts, agg1), p, h2) = >>=-inv (absorb_items items (no_counts, agg)) _ h1 in
    let ((report2, agg2), q, h3) = >>=-inv (aggregate mods agg1) _ h2 in
    let e : agg2 ≡ agg' = ap (λ t. t.1) (ok-injective h3) in
    let (d1, s1) = absorb_items-strength items no_counts counts agg agg1 p in
    let (d2, s2) = aggregate-strength mods report2 agg1 agg' (q ∙ ap (λ a. ok (report2, a)) e) in
    (λ d. d2 (d1 d), λ k. rw (s2 k, s1 k, o) (omega arith))
