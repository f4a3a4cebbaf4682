-- ===== src/Runner/Total.antt =====
-- When the loop over the modules and `main` of the runner end: the results are dicts of dicts whose
-- status, if there is one, is no list and no dict.
use claude_studio.Prelude.{
  ℕ, ◌≡◌, refl, String, str_eq, Bool, true, false, Option, none, some, List, [], ◌∷◌, ltb,
  if◌then◌else◌, Bool-cases, Option-cases, inl, inr,
}
use claude_studio.Python.Json.{Json, str, obj, Fields, end, field, lookup, insert, or_null}
use claude_studio.Python.Result.{ok, get_or, >>=-ok}
use claude_studio.Features.{Feature}
use claude_studio.Runner.Marks.{reported_pass, promoted, run_main-features}
use claude_studio.Runner.{
  Counts, no_counts, rank, is_stronger, absorb, absorb_items, Report, aggregate, tally, Outcome,
  run_main,
}

-- The report on a feature is a dict, and its status can be looked up in the ranks.
abbrev pub IsReadable : Json → Type 0
IsReadable info =
    (fs : Fields) × (r : ℕ) × (info ≡ obj fs) × (rank (or_null (lookup "status" fs)) ≡ ok r)

abbrev pub AllReadable : Fields → Type 0
AllReadable end = Unit
AllReadable (field fid info res) = IsReadable info × AllReadable res

-- Every module gave no results or a dict of readable ones.
abbrev pub AreReadable : List (String × Option Json) → Type 0
AreReadable [] = Unit
AreReadable ((name, none) ∷ mods) = AreReadable mods
AreReadable ((name, some res) ∷ mods) =
    ((fs : Fields) × (res ≡ obj fs) × AllReadable fs) × AreReadable mods

pub insert-AllReadable :
    (fid : String) (info : Json) (agg : Fields)
    → IsReadable info
    → AllReadable agg
    → AllReadable (insert fid info agg)
insert-AllReadable fid info end ri ra = (ri, tt)
insert-AllReadable fid info (field k v agg) ri ra = elim (Bool-cases (str_eq k fid)) [
  | inl e ↦ rw e (ri, ra.1)
  | inr e ↦ rw e (ra.0, insert-AllReadable fid info agg ri ra.1)
]

lookup-IsReadable :
    (fid : String) (agg : Fields) {v : Json}
    → AllReadable agg
    → lookup fid agg ≡ some v
    → IsReadable v
lookup-IsReadable fid end ra h = cc
lookup-IsReadable fid (field k w agg) {v} ra h = elim (Bool-cases (str_eq k fid)) [
  | inl e ↦ let same : some w ≡ some v = rw e at h in let (fs, r, p, q) = ra.0 in (fs, r, cc, q)
  | inr e ↦ let later : lookup fid agg ≡ some v = rw e at h in lookup-IsReadable fid agg ra.1 later
]

-- The status that the loop reads has a rank.
status-rank :
    (info : Json)
    → IsReadable info
    → (st : Json) × (r : ℕ) × (get_or "status" (str "other") info ≡ ok st) × (rank st ≡ ok r)
status-rank info (fs, r, p, q) = elim (Option-cases (lookup "status" fs)) [
  | inl e ↦ (str "other", 0, rw (p, e) refl, refl)
  | inr (v, e) ↦ (v, r, rw (p, e) refl, rw e at q)
]

is_stronger-ok :
    (fid : String) (agg : Fields) (r : ℕ)
    → AllReadable agg
    → (b : Bool) × (is_stronger (lookup fid agg) r ≡ ok b)
is_stronger-ok fid agg r ra = elim (Option-cases (lookup fid agg)) [
  | inl e ↦ (true, rw e refl)
  | inr (v, e) ↦
      let (fs, r', p, q) = lookup-IsReadable fid agg ra e in (ltb r' r, rw (e, p, q) refl)
]

absorb-ok :
    (fid : String) (info : Json) (c : Counts) (agg : Fields)
    → IsReadable info
    → AllReadable agg
    → (c' : Counts) × (agg' : Fields) × (absorb fid info (c, agg) ≡ ok (c', agg'))
      × AllReadable agg'
unfolding absorb
absorb-ok fid info c agg ri ra =
    let (st, r, p, q) = status-rank info ri in
    let (b, s) = is_stronger-ok fid agg r ra in
    (
      tally st c,
      if b then insert fid info agg else agg,
      rw (p, q, s) refl,
      elim (Bool-cases b) [
        | inl e ↦ rw e (insert-AllReadable fid info agg ri ra)
        | inr e ↦ rw e ra
      ],
    )

absorb_items-ok :
    (res : Fields) (c : Counts) (agg : Fields)
    → AllReadable res
    → AllReadable agg
    → (c' : Counts) × (agg' : Fields) × (absorb_items res (c, agg) ≡ ok (c', agg'))
      × AllReadable agg'
unfolding absorb_items
absorb_items-ok end c agg rr ra = (c, agg, refl, ra)
absorb_items-ok (field fid info res) c agg rr ra =
    let (c1, agg1, p, ra1) = absorb-ok fid info c agg rr.0 ra in
    let (c2, agg2, q, ra2) = absorb_items-ok res c1 agg1 rr.1 ra1 in (c2, agg2, rw (p, q) refl, ra2)

aggregate-ok :
    (mods : List (String × Option Json)) (agg : Fields)
    → AreReadable mods
    → AllReadable agg
    → (report : Report) × (agg' : Fields) × (aggregate mods agg ≡ ok (report, agg'))
unfolding aggregate
aggregate-ok [] agg rm ra = ([], agg, refl)
aggregate-ok ((name, none) ∷ mods) agg rm ra =
    let (report, agg', p) = aggregate-ok mods agg rm ra in ((name, none) ∷ report, agg', rw p refl)
aggregate-ok ((name, some res) ∷ mods) agg ((fs, e, rr), rm) ra =
    let (c, agg1, p, ra1) = absorb_items-ok fs no_counts agg rr ra in
    let (report, agg', q) = aggregate-ok mods agg1 rm ra1 in
    ((name, some c) ∷ report, agg', rw (e, p, q) refl)

run_main-ok :
    (dry : Bool) (mods : List (String × Option Json)) (fs : List Feature)
    → AreReadable mods
    → (out : Outcome) × (run_main dry mods fs ≡ ok out)
unfolding run_main
run_main-ok dry mods fs rm =
    let (report, agg, p) = aggregate-ok mods end rm tt in >>=-ok _ p (_, refl)

-- If every module gave no results or a dict of dicts whose status, where there is one, is no list
-- and no dict, `main` ends. With `--dry` the feature list is as before; without, exactly the
-- features that some module reported as passed have been made to pass (the last entry of each id).
pub run_main-promoted :
    (dry : Bool) (mods : List (String × Option Json)) (fs : List Feature)
    → AreReadable mods
    → (out : Outcome) × (run_main dry mods fs ≡ ok out)
      × (out.features ≡ (if dry then fs else promoted (λ k. reported_pass k mods) fs))
run_main-promoted dry mods fs rm =
    let (out, p) = run_main-ok false mods fs rm in
    let (dry_out, q) = run_main-ok true mods fs rm in
    let (marks, same) = run_main-features mods fs p q in
    elim dry
      as (λ b.
        (o : Outcome) × (run_main b mods fs ≡ ok o)
        × (o.features ≡ (if b then fs else promoted (λ k. reported_pass k mods) fs))) [
          | true ↦ (dry_out, q, same)
          | false ↦ (out, p, marks)
        ]
