-- ===== src/Tests/Python.antt =====
-- Runs of Python's operations on values, and of features, at concrete inputs.
use claude_studio.Prelude.{◌≡◌, refl, true, false, [], ◌∷◌}
use claude_studio.Prelude.Int.{pos, negsuc}
use claude_studio.Python.Json.{Json, null, bool, int, float, str, arr, obj, nil, end, field}
use claude_studio.Python.Result.{ok, err, remote_error, type_error, stop_iteration, index_error}
use claude_studio.Python.Values.{value_eq, value_lt}
use claude_studio.Python.Dynamic.{any_of, next_of, table_of, item}
use claude_studio.Python.Builtins.{sorted_values, all_but_last, last, refused}
use claude_studio.Python.Stateful.{◌>>=◌, pure, raise}
use claude_studio.Tests.Core.{up}
use claude_studio.Probes.Meaning.{has_ended}
use claude_studio.Probes.Batch5.{f302, f310}

-- 1.0 == 1, True == 1, "1" != 1
equal_numbers : value_eq (float (pos 2) 1) (int (pos 1)) ≡ true
unfolding value_eq
equal_numbers = refl

equal_flags : value_eq (bool true) (int (pos 1)) ≡ true
unfolding value_eq
equal_flags = refl

unequal_text : value_eq (str "1") (int (pos 1)) ≡ false
unfolding value_eq
unequal_text = refl

-- The order of the fields of a dict does not count.
equal_dicts :
    value_eq
      (obj (field "a" null (field "b" (str "x") end)))
      (obj (field "b" (str "x") (field "a" null end)))
    ≡ true
unfolding value_eq
equal_dicts = refl

sorted_numbers :
    (sorted_values (int (pos 2) ∷ int (negsuc 0) ∷ int (pos 1) ∷ []) tt).0
    ≡ ok (int (negsuc 0) ∷ int (pos 1) ∷ int (pos 2) ∷ [])
unfolding value_lt
sorted_numbers = refl

sorted_mixed : (sorted_values (int (pos 2) ∷ str "a" ∷ []) tt).0 ≡ err type_error
unfolding value_lt
sorted_mixed = refl

last_of_nothing : (last (arr nil) tt).0 ≡ err index_error
last_of_nothing = refl

shorter_text : (all_but_last (str "abc") tt).0 ≡ ok (str "ab")
shorter_text = refl

-- `any` stops at the first element that decides: the second has no key.
any_stops :
    (any_of (λ v. item v "a" >>= λ w. pure true) (obj (field "a" null end) ∷ null ∷ []) tt).0
    ≡ ok true
unfolding any_of
any_stops = refl

next_of_none : (next_of (λ v. pure false) (null ∷ []) tt).0 ≡ err stop_iteration
unfolding next_of
next_of_none = refl

-- A later value of a key replaces the earlier one.
later_value :
    (table_of (λ v. pure (str "k", v)) (int (pos 1) ∷ int (pos 2) ∷ []) [] tt).0
    ≡ ok ((str "k", int (pos 2)) ∷ [])
unfolding table_of value_eq
later_value = refl

refused_remote : (refused (raise {A = Json} (remote_error null null "m")) tt).0 ≡ ok true
refused_remote = refl

refused_other : (refused (raise {A = Json} type_error) tt).0 ≡ err type_error
refused_other = refl

f302_passes : has_ended (f302 up 0).0 ≡ true
unfolding f302 value_eq
f302_passes = refl

f310_raises : has_ended (f310 up 0).0 ≡ false
unfolding f310
f310_raises = refl
