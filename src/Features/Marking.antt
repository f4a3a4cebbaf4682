-- ===== src/Features/Marking.antt =====
-- `mark_passing` in closed form, and what it counts.
use claude_studio.Prelude.{
  ℕ, suc, ◌+◌, ◌≡◌, refl, sym, ap, subst, ◌∙◌, String, str_eq, eq_iff, Bool, true, false, not, ◌&&◌,
  ◌||◌, Option, none, some, List, [], ◌∷◌, map, arith, elem, get_elem?, if◌then◌else◌, Bool-cases,
  Option-cases, fun_ext, inl, inr,
}
use claude_studio.Features.{Feature, by_id, flip, mark, mark_all, mark_passing}

-- Some entry has the id.
abbrev pub has : String → List Feature → Bool
has k [] = false
has k (f ∷ fs) = str_eq f.id k || has k fs

-- The list after marking: an entry passes if it did, or if its id is marked and no later entry has
-- that id.
abbrev pub marked : List String → List Feature → List Feature
marked ks [] = []
marked ks (f ∷ fs) =
    record f { passes = f.passes || (elem f.id ks && not (has f.id fs)) } ∷ marked ks fs

abbrev pub count_passing : List Feature → ℕ
count_passing [] = 0
count_passing (f ∷ fs) = (if f.passes then 1 else 0) + count_passing fs

abbrev ids : List Feature → List String
ids fs = map (λ f. f.id) fs

abbrev last_index : List String → String → Option ℕ
last_index [] k = none
last_index (i ∷ is) k = elim (last_index is k) [
  | some j ↦ some (suc j)
  | none ↦ if str_eq i k then some 0 else none
]

by_id-last_index : (fs : List Feature) (k : String) → by_id fs k ≡ last_index (ids fs) k
unfolding by_id
by_id-last_index [] k = refl
by_id-last_index (f ∷ fs) k =
    ap
      (λ o. elim o as (λ _. Option ℕ) [
        | some j ↦ some (suc j)
        | none ↦ if str_eq f.id k then some 0 else none
      ])
      (by_id-last_index fs k)

by_id-has : (fs : List Feature) (k : String) → by_id fs k ≡ none → has k fs ≡ false
unfolding by_id
by_id-has [] k h = refl
by_id-has (f ∷ fs) k h = elim (Option-cases (by_id fs k)) [
  | inl e ↦ ground (arith, by_id-has fs k e)
  | inr (j, e) ↦ ground arith
]

has_of_by_id : (fs : List Feature) (k : String) (j : ℕ) → by_id fs k ≡ some j → has k fs ≡ true
unfolding by_id
has_of_by_id [] k j h = cc
has_of_by_id (f ∷ fs) k j h = elim (Option-cases (by_id fs k)) [
  | inl e ↦ ground arith
  | inr (i, e) ↦ ground (arith, has_of_by_id fs k i e)
]

marked_absent : (k : String) (fs : List Feature) → has k fs ≡ false → marked (k ∷ []) fs ≡ fs
marked_absent k [] h = refl
marked_absent k (f ∷ fs) h = ground (arith, eq_iff k f.id, eq_iff f.id k, marked_absent k fs)

module _ (index : String → Option ℕ) (k : String) (fs : List Feature) (n : ℕ) where
  mark-none : index k ≡ none → mark index k (fs, n) ≡ (fs, n)
  unfolding mark
  mark-none e =
      ap
        (λ o. elim o as (λ _. List Feature × ℕ) [
          | none ↦ (fs, n)
          | some j ↦ flip j (get_elem? fs j) (fs, n)
        ])
        e

  mark-some : (j : ℕ) → index k ≡ some j → mark index k (fs, n) ≡ flip j (get_elem? fs j) (fs, n)
  unfolding mark
  mark-some j e =
      ap
        (λ o. elim o as (λ _. List Feature × ℕ) [
          | none ↦ (fs, n)
          | some j ↦ flip j (get_elem? fs j) (fs, n)
        ])
        e

-- What one round leaves, in terms of the list and of the number before it.
abbrev IsMarked : String → List Feature → ℕ → List Feature × ℕ → Type 0
IsMarked k fs n (fs', n') =
    (fs' ≡ marked (k ∷ []) fs) × (n' + count_passing fs ≡ n + count_passing fs')

mark-absent : (k : String) (fs : List Feature) (n : ℕ) → has k fs ≡ false → IsMarked k fs n (fs, n)
mark-absent k fs n h = (sym (marked_absent k fs h), refl)

flip-here :
    (k : String) (f : Feature) (fs : List Feature) (n : ℕ)
    → f.id ≡ k
    → has k fs ≡ false
    → IsMarked k (f ∷ fs) n (flip 0 (some f) (f ∷ fs, n))
unfolding flip
flip-here k f fs n same h =
    ground (arith, eq_iff k f.id, marked_absent k fs h, ap (λ i. has i fs) same)

flip-later :
    (k : String) (f : Feature) (fs : List Feature) (n j : ℕ)
    → has k fs ≡ true
    → (o : Option Feature) → IsMarked k fs n (flip j o (fs, n))
    → IsMarked k (f ∷ fs) n (flip (suc j) o (f ∷ fs, n))
unfolding flip
flip-later k f fs n j h none ih =
    ground (arith, eq_iff k f.id, λ (e : k ≡ f.id). ap (λ i. has i fs) e)
flip-later k f fs n j h (some g) ih =
    ground (arith, eq_iff k f.id, λ (e : k ≡ f.id). ap (λ i. has i fs) e)

-- One round, by itself.
mark-IsMarked :
    (k : String) (fs : List Feature) (n : ℕ) → IsMarked k fs n (mark (by_id fs) k (fs, n))
unfolding by_id
mark-IsMarked k [] n = rw (mark-none (λ _. none) k [] n refl) (refl, refl)
mark-IsMarked k (f ∷ fs) n = elim (Option-cases (by_id fs k)) [
  | inl e ↦ elim (Bool-cases (str_eq f.id k)) [
    | inl same ↦
        subst (IsMarked k (f ∷ fs) n)
          (sym (mark-some (by_id (f ∷ fs)) k (f ∷ fs) n 0 (rw (e, same) refl)))
          (flip-here k f fs n ((eq_iff f.id k).0 same) (by_id-has fs k e))
    | inr other ↦
        subst (IsMarked k (f ∷ fs) n)
          (sym (mark-none (by_id (f ∷ fs)) k (f ∷ fs) n (rw (e, other) refl)))
          (mark-absent k (f ∷ fs) n (rw (other, by_id-has fs k e) refl))
  ]
  | inr (j, e) ↦
      let ih : IsMarked k fs n (flip j (get_elem? fs j) (fs, n)) =
        subst (IsMarked k fs n) (mark-some (by_id fs) k fs n j e) (mark-IsMarked k fs n) in
      subst (IsMarked k (f ∷ fs) n)
        (sym (mark-some (by_id (f ∷ fs)) k (f ∷ fs) n (suc j) (rw e refl)))
        (flip-later k f fs n j (has_of_by_id fs k j e) (get_elem? fs j) ih)
]

-- Marking keeps the ids, so the index that was built at the start stays right.
by_id-marked : (ks : List String) (fs : List Feature) → by_id (marked ks fs) ≡ by_id fs
by_id-marked ks fs = fun_ext (λ k.
    by_id-last_index _ k
    ∙ ap (λ is. last_index is k) (ids-marked ks fs)
    ∙ sym (by_id-last_index fs k))
  where
    ids-marked : (ks : List String) (fs : List Feature) → ids (marked ks fs) ≡ ids fs
    ids-marked ks [] = refl
    ids-marked ks (f ∷ fs) = ap (λ is. f.id ∷ is) (ids-marked ks fs)

has-marked : (k : String) (ks : List String) (fs : List Feature) → has k (marked ks fs) ≡ has k fs
has-marked k ks [] = refl
has-marked k ks (f ∷ fs) = ap (λ b. str_eq f.id k || b) (has-marked k ks fs)

marked-marked :
    (k : String) (ks : List String) (fs : List Feature)
    → marked ks (marked (k ∷ []) fs) ≡ marked (k ∷ ks) fs
marked-marked k ks [] = refl
marked-marked k ks (f ∷ fs) = ground (arith, has-marked f.id (k ∷ []) fs, marked-marked k ks fs)

marked-nil : (fs : List Feature) → marked [] fs ≡ fs
marked-nil [] = refl
marked-nil (f ∷ fs) = ground (arith, marked-nil fs)

mark_all-eq :
    (ks : List String) (fs : List Feature) (n : ℕ)
    → let s = mark_all (by_id fs) ks (fs, n) in
      (s.0 ≡ marked ks fs) × (s.1 + count_passing fs ≡ n + count_passing s.0)
unfolding mark_all
mark_all-eq [] fs n = (sym (marked-nil fs), refl)
mark_all-eq (k ∷ ks) fs n =
    let s = mark (by_id fs) k (fs, n) in
    let (p, q) = mark-IsMarked k fs n in
    let same : by_id s.0 ≡ by_id fs = ap by_id p ∙ by_id-marked (k ∷ []) fs in
    let (p', q') = mark_all-eq ks s.0 s.1 in
    let e = ap (λ index. mark_all index ks s) same in
    (
      ap (λ t. t.0) (sym e) ∙ p' ∙ ap (marked ks) p ∙ marked-marked k ks fs,
      omega (arith, q, q', ap (λ t. t.1) e, ap (λ t. count_passing t.0) e),
    )

-- Exactly the last entry of each marked id is made to pass; nothing else changes.
pub mark_passing-eq : (ks : List String) (fs : List Feature) → (mark_passing ks fs).0 ≡ marked ks fs
unfolding mark_passing
mark_passing-eq ks fs = (mark_all-eq ks fs 0).0

-- The number returned is by how much the number of passing entries has grown.
pub mark_passing-count :
    (ks : List String) (fs : List Feature)
    → let (fs', n) = mark_passing ks fs in n + count_passing fs ≡ count_passing fs'
unfolding mark_passing
mark_passing-count ks fs = omega (arith, (mark_all-eq ks fs 0).1)
