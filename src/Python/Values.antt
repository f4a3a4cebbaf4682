-- ===== src/Python/Values.antt =====
-- How Python compares the values of `Json`: `==`, `<`, `in`, and which of them can be keys. Numbers
-- of all kinds are compared by value, a float being the dyadic number that it stands for.
use Prim.Native.String.{compare}
use Prim.Native.Nat.{Ordering}
use claude_studio.Prelude.{
  ℕ, suc, ◌-◌, ◌+◌, ◌*◌, ◌^◌, String, str_eq, Bool, true, false, not, ◌&&◌, ◌||◌, Option, none,
  some, List, [], ◌∷◌, ltb, ◌==◌, if◌then◌else◌,
}
use claude_studio.Prelude.Int.{ℤ, pos, negsuc}
use claude_studio.Python.Json.{
  Json, null, bool, int, float, str, arr, obj, Items, nil, cons, Fields, end, field, lookup,
}
use claude_studio.Python.Result.{Result, ok, err, type_error}
use claude_studio.Python.Text.{contains}

-- m * 2 ^ k
abbrev scaled : ℤ → ℕ → ℤ
scaled (pos m) k = pos (m * 2 ^ k)
scaled (negsuc m) k = negsuc ((m + 1) * 2 ^ k - 1)

abbrev int_eq : ℤ → ℤ → Bool
int_eq (pos m) (pos n) = m == n
int_eq (negsuc m) (negsuc n) = m == n
int_eq (pos m) (negsuc n) = false
int_eq (negsuc m) (pos n) = false

abbrev int_lt : ℤ → ℤ → Bool
int_lt (pos m) (pos n) = ltb m n
int_lt (negsuc m) (negsuc n) = ltb n m
int_lt (pos m) (negsuc n) = false
int_lt (negsuc m) (pos n) = true

-- The number m / 2 ^ k of a value that is one.
abbrev pub number : Json → Option (ℤ × ℕ)
number (int n) = some (n, 0)
number (float m k) = some (m, k)
number (bool true) = some (pos 1, 0)
number (bool false) = some (pos 0, 0)
number null = none
number (str s) = none
number (arr vs) = none
number (obj fs) = none

abbrev number_eq : Option (ℤ × ℕ) → Option (ℤ × ℕ) → Bool
number_eq (some (m, j)) (some (n, k)) = int_eq (scaled m k) (scaled n j)
number_eq none b = false
number_eq (some a) none = false

abbrev number_lt : Option (ℤ × ℕ) → Option (ℤ × ℕ) → Result Bool
number_lt (some (m, j)) (some (n, k)) = ok (int_lt (scaled m k) (scaled n j))
number_lt none b = err type_error
number_lt (some a) none = err type_error

abbrev pub count_fields : Fields → ℕ
count_fields end = 0
count_fields (field k v fs) = suc (count_fields fs)

-- `a == b`
unfoldable mutual
  pub value_eq : Json → Json → Bool
  value_eq null b = elim b [ null ↦ true | _ ↦ false ]
  value_eq (str s) b = elim b [ str t ↦ str_eq s t | _ ↦ false ]
  value_eq (bool x) b = number_eq (number (bool x)) (number b)
  value_eq (int n) b = number_eq (some (n, 0)) (number b)
  value_eq (float m k) b = number_eq (some (m, k)) (number b)
  value_eq (arr vs) b = elim b [ arr ws ↦ items_eq vs ws | _ ↦ false ]
  value_eq (obj fs) b = elim b [
    | obj gs ↦ count_fields fs == count_fields gs && fields_in fs gs
    | _ ↦ false
  ]

  pub items_eq : Items → Items → Bool
  items_eq nil ws = elim ws [ nil ↦ true | _ ↦ false ]
  items_eq (cons v vs) ws = elim ws [ nil ↦ false | cons w ws' ↦ value_eq v w && items_eq vs ws' ]

  -- Every field of the first is one of the second.
  pub fields_in : Fields → Fields → Bool
  fields_in end gs = true
  fields_in (field k v fs) gs =
      (elim (lookup k gs) [ none ↦ false | some w ↦ value_eq v w ]) && fields_in fs gs

abbrev text_lt : String → String → Bool
text_lt s t = elim (compare s t) [ Ordering.lt ↦ true | _ ↦ false ]

-- `a < b`: numbers by value, texts by code points, lists by their first difference.
unfoldable mutual
  unfolding value_eq items_eq fields_in

  pub value_lt : Json → Json → Result Bool
  value_lt (str s) b = elim b [ str t ↦ ok (text_lt s t) | _ ↦ err type_error ]
  value_lt (arr vs) b = elim b [ arr ws ↦ items_lt vs ws | _ ↦ err type_error ]
  value_lt (int n) b = number_lt (some (n, 0)) (number b)
  value_lt (float m k) b = number_lt (some (m, k)) (number b)
  value_lt (bool x) b = number_lt (number (bool x)) (number b)
  value_lt null b = err type_error
  value_lt (obj fs) b = err type_error

  pub items_lt : Items → Items → Result Bool
  items_lt nil ws = elim ws [ nil ↦ ok false | _ ↦ ok true ]
  items_lt (cons v vs) ws = elim ws [
    | nil ↦ ok false
    | cons w ws' ↦
        let rest = items_lt vs ws' in let here = value_lt v w in if value_eq v w then rest else here
  ]

-- `v is True`, `v is False`, `v is None`
abbrev pub is_true : Json → Bool
is_true (bool x) = x
is_true null = false
is_true (int n) = false
is_true (float m k) = false
is_true (str s) = false
is_true (arr vs) = false
is_true (obj fs) = false

abbrev pub is_false : Json → Bool
is_false (bool x) = not x
is_false null = false
is_false (int n) = false
is_false (float m k) = false
is_false (str s) = false
is_false (arr vs) = false
is_false (obj fs) = false

abbrev pub is_none : Json → Bool
is_none null = true
is_none (bool x) = false
is_none (int n) = false
is_none (float m k) = false
is_none (str s) = false
is_none (arr vs) = false
is_none (obj fs) = false

-- Among values, by `==`.
unfoldable pub any_eq : Json → List Json → Bool
any_eq v [] = false
any_eq v (w ∷ ws) = value_eq v w || any_eq v ws

unfoldable pub item_of : Json → Items → Bool
item_of v nil = false
item_of v (cons w ws) = value_eq v w || item_of v ws

-- `k in v` for a text `k`.
unfoldable pub text_in : String → Json → Result Bool
text_in k (str s) = ok (contains k s)
text_in k (arr vs) = ok (item_of (str k) vs)
text_in k (obj fs) = ok (elim (lookup k fs) [ none ↦ false | some _ ↦ true ])
text_in k null = err type_error
text_in k (bool x) = err type_error
text_in k (int n) = err type_error
text_in k (float m j) = err type_error

-- Whether a value can be a key or the member of a set.
abbrev pub is_hashable : Json → Bool
is_hashable (arr vs) = false
is_hashable (obj fs) = false
is_hashable null = true
is_hashable (bool x) = true
is_hashable (int n) = true
is_hashable (float m k) = true
is_hashable (str s) = true

-- A set keeps one of equal members.
unfoldable pub set_of : List Json → List Json
set_of [] = []
set_of (v ∷ vs) = let rest = set_of vs in if any_eq v rest then rest else v ∷ rest

-- `a <= b` of sets.
unfoldable pub is_subset : List Json → List Json → Bool
is_subset [] b = true
is_subset (v ∷ a) b = any_eq v b && is_subset a b

-- The truth value of `a & b`.
unfoldable pub meets : List Json → List Json → Bool
meets [] b = false
meets (v ∷ a) b = any_eq v b || meets a b

-- `a == b` of sets.
abbrev pub same_set : List Json → List Json → Bool
same_set a b = is_subset a b && is_subset b a

-- `isinstance(v, str)`, `isinstance(v, list)`, `isinstance(v, (int, float))`
abbrev pub is_str : Json → Bool
is_str v = elim v [ str s ↦ true | _ ↦ false ]

abbrev pub is_list : Json → Bool
is_list v = elim v [ arr vs ↦ true | _ ↦ false ]

abbrev pub is_number : Json → Bool
is_number v = elim (number v) [ some n ↦ true | none ↦ false ]
