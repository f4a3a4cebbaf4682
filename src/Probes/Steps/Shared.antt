-- ===== src/Probes/Steps/Shared.antt =====
-- A `try` of the probe modules whose body records several features: what is reported when it raises.
use claude_studio.Prelude.{
  ◌≡◌, refl, String, eq_iff, not, ◌&&◌, Option, some, List, [], ◌∷◌, if◌then◌else◌, elem, arith,
  inl, inr,
}
use claude_studio.Python.Json.{Json, Fields, lookup, insert, lookup-insert}
use claude_studio.Python.Result.{ok, err, Result-cases}
use claude_studio.Python.Stateful.{Stateful}
use claude_studio.Probes.Steps.{
  Harness, Run, report, is_reported, fail_missing, record_result, attempt_each,
}

-- The entry of `k` once those of the features `fids` that are missing are failures.
abbrev pub filled : String → List String → String → Fields → Option Json
filled k fids note results =
    if elem k fids && not (is_reported k results)
    then some (report "fail" "" note)
    else lookup k results

module _ {W : Type 0} (h : Harness W) where
  fail_missing-lookup :
      (fids : List String) (note : String) (s : Run W)
      → ((fail_missing h fids note s).0 ≡ ok tt)
        × ((fail_missing h fids note s).1.world ≡ s.world)
        × ((k : String)
            → lookup k (fail_missing h fids note s).1.results ≡ filled k fids note s.results)
  unfolding fail_missing record_result
  fail_missing-lookup [] note s = (refl, refl, λ k. refl)
  fail_missing-lookup (fid ∷ fids) note s =
      let failed = report "fail" "" note in
      let s' : Run W =
        if is_reported fid s.results
        then s
        else record s { results = insert fid failed s.results } in
      let (p, q, r) = fail_missing-lookup fids note s' in
      (
        ground arith,
        ground arith,
        λ k. ground (arith, r k, eq_iff fid k, lookup-insert fid k failed s.results),
      )

  -- A `try` that records several features never raises, and leaves the world as its body does. If
  -- the body ends, the entries are those that it has recorded. If it raises, they are too, but each
  -- of the listed features without an entry has failed with the exception's text as its note.
  pub attempt_each-reported :
      (fids : List String) (body : Stateful (Run W) (Unit {0})) (s : Run W) (k : String)
      → let s' = (attempt_each h fids body s).1 in
        ((attempt_each h fids body s).0 ≡ ok tt)
        × (s'.world ≡ (body s).1.world)
        × (lookup k s'.results ≡ elim (body s).0 [
          | ok _ ↦ lookup k (body s).1.results
          | err e ↦ filled k fids (h.error_text e) (body s).1.results
        ])
  unfolding attempt_each
  attempt_each-reported fids body s k = elim (Result-cases (body s).0) [
    | inl (a, ended) ↦ rw (attempt_each, ended) (refl, refl, refl)
    | inr (e, raised) ↦
        let (p, q, r) = fail_missing-lookup fids (h.error_text e) (body s).1 in
        rw (attempt_each, raised) (p, q, r k)
  ]
