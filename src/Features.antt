-- ===== src/Features.antt =====
-- The feature list, feature_list.json, and `mark_passing` of test-harness/lib/cs_probe.py. Reading
-- and writing the file is the caller's: the list is an argument and a result.
pub mod Marking
use claude_studio.Prelude.{
  ℕ, zero, suc, ◌+◌, String, str_eq, Bool, true, false, Option, none, some, List, [], ◌∷◌,
  if◌then◌else◌, get_elem?, set,
}
use claude_studio.Python.Json.{Fields}

-- An entry of the list: `id`, `passes` and the fields that marking never reads.
pub record Feature : Type 0 where
  pub id : String
  pub passes : Bool
  pub others : Fields

-- `{f["id"]: f for f in feats}`: where the entry stands that an id leads to. A later entry
-- overwrites an earlier one of the same id.
unfoldable pub by_id : List Feature → String → Option ℕ
by_id [] k = none
by_id (f ∷ fs) k = elim (by_id fs k) [
  | some j ↦ some (suc j)
  | none ↦ if str_eq f.id k then some 0 else none
]

-- `if not f["passes"]: f["passes"] = True; n += 1`, on the entry `j` of the shared list.
flip : ℕ → Option Feature → List Feature × ℕ → List Feature × ℕ
flip j none (fs, n) = (fs, n)
flip j (some f) (fs, n) =
    if f.passes then (fs, n) else (set fs j (record f { passes = true }), n + 1)

-- One round of the loop over `fids`.
unfoldable pub mark : (String → Option ℕ) → String → List Feature × ℕ → List Feature × ℕ
unfolding flip
mark index fid (fs, n) = elim (index fid) [
  | none ↦ (fs, n)
  | some j ↦ flip j (get_elem? fs j) (fs, n)
]

unfoldable pub mark_all : (String → Option ℕ) → List String → List Feature × ℕ → List Feature × ℕ
mark_all index [] s = s
mark_all index (fid ∷ fids) s = mark_all index fids (mark index fid s)

-- The list that is written back, and the number of entries that were marked.
unfoldable pub mark_passing : List String → List Feature → List Feature × ℕ
mark_passing fids fs = mark_all (by_id fs) fids (fs, 0)
