-- ===== src/Python/Operations.antt =====
-- Python's operations on values as functions: each gives an exception where Python raises one.
use claude_studio.Prelude.{
  ℕ, zero, suc, String, str_append, Bool, true, false, Option, none, some, List, [], ◌∷◌,
  if◌then◌else◌, map,
}
use claude_studio.Prelude.Int.{pos, negsuc}
use claude_studio.Python.Json.{
  Json, null, bool, int, float, str, arr, obj, Items, nil, cons, Fields, end, field, items,
}
use claude_studio.Python.Result.{
  Result, ok, err, type_error, attribute_error, index_error, key_missing,
}
use claude_studio.Python.Text.{strip, starts_with}
use claude_studio.Python.Values.{value_eq, text_in, is_hashable, item_of}

abbrev pub from_list : List Json → Items
from_list [] = nil
from_list (v ∷ vs) = cons v (from_list vs)

-- The single characters of a text.
abbrev pub letters : String → List Json
letters String.[] = []
letters (String.◌∷◌ c s) = str (String.◌∷◌ c "") ∷ letters s

abbrev pub keys : Fields → List Json
keys end = []
keys (field k v fs) = str k ∷ keys fs

-- `iter(v)`
abbrev pub elements : Json → Result (List Json)
elements (arr vs) = ok (items vs)
elements (obj fs) = ok (keys fs)
elements (str s) = ok (letters s)
elements null = err type_error
elements (bool x) = err type_error
elements (int n) = err type_error
elements (float m k) = err type_error

abbrev pub list_length : List Json → ℕ
list_length [] = 0
list_length (v ∷ vs) = suc (list_length vs)

-- `len(vs)`
abbrev pub size : List Json → Json
size vs = int (pos (list_length vs))

abbrev list_nth : ℕ → List Json → Result Json
list_nth n [] = err index_error
list_nth zero (v ∷ vs) = ok v
list_nth (suc n) (v ∷ vs) = list_nth n vs

abbrev list_prefix : ℕ → List Json → List Json
list_prefix n [] = []
list_prefix zero (v ∷ vs) = []
list_prefix (suc n) (v ∷ vs) = v ∷ list_prefix n vs

abbrev text_prefix : ℕ → String → String
text_prefix n String.[] = ""
text_prefix zero (String.◌∷◌ c s) = ""
text_prefix (suc n) (String.◌∷◌ c s) = String.◌∷◌ c (text_prefix n s)

-- `v[n]` for a number that is not negative. A dict has texts as keys only.
abbrev pub nth_result : Json → ℕ → Result Json
nth_result (arr vs) n = list_nth n (items vs)
nth_result (str s) n = list_nth n (letters s)
nth_result (obj fs) n = err (key_missing (int (pos n)))
nth_result null n = err type_error
nth_result (bool x) n = err type_error
nth_result (int m) n = err type_error
nth_result (float m k) n = err type_error

-- `v[:n]`
abbrev pub prefix_result : Json → ℕ → Result Json
prefix_result (arr vs) n = ok (arr (from_list (list_prefix n (items vs))))
prefix_result (str s) n = ok (str (text_prefix n s))
prefix_result (obj fs) n = err type_error
prefix_result null n = err type_error
prefix_result (bool x) n = err type_error
prefix_result (int m) n = err type_error
prefix_result (float m k) n = err type_error

-- `v.strip()`
abbrev pub strip_result : Json → Result Json
strip_result (str s) = ok (str (strip s))
strip_result null = err attribute_error
strip_result (bool x) = err attribute_error
strip_result (int m) = err attribute_error
strip_result (float m k) = err attribute_error
strip_result (arr vs) = err attribute_error
strip_result (obj fs) = err attribute_error

-- `v.startswith(p)` for a text `p`.
abbrev pub starts_with_result : Json → String → Result Bool
starts_with_result (str s) p = ok (starts_with s p)
starts_with_result null p = err attribute_error
starts_with_result (bool x) p = err attribute_error
starts_with_result (int m) p = err attribute_error
starts_with_result (float m k) p = err attribute_error
starts_with_result (arr vs) p = err attribute_error
starts_with_result (obj fs) p = err attribute_error

-- `separator.join(vs)`
abbrev pub join_result : String → List Json → Result Json
join_result separator [] = ok (str "")
join_result separator (str s ∷ []) = ok (str s)
join_result separator (str s ∷ w ∷ vs) = elim (join_result separator (w ∷ vs)) [
  | ok v ↦ elim v [ str t ↦ ok (str (str_append s (str_append separator t))) | _ ↦ err type_error ]
  | err e ↦ err e
]
join_result separator (v ∷ vs) = err type_error

abbrev pub concat : List String → String
concat [] = ""
concat (s ∷ ss) = str_append s (concat ss)

-- `abs(v)`
abbrev pub absolute_result : Json → Result Json
absolute_result (int (pos n)) = ok (int (pos n))
absolute_result (int (negsuc n)) = ok (int (pos (suc n)))
absolute_result (float (pos m) k) = ok (float (pos m) k)
absolute_result (float (negsuc m) k) = ok (float (pos (suc m)) k)
absolute_result (bool true) = ok (int (pos 1))
absolute_result (bool false) = ok (int (pos 0))
absolute_result null = err type_error
absolute_result (str s) = err type_error
absolute_result (arr vs) = err type_error
absolute_result (obj fs) = err type_error

-- `v in w`
abbrev pub value_in : Json → Json → Result Bool
value_in (str k) w = text_in k w
value_in v (arr ws) = ok (item_of v ws)
value_in v (obj fs) = if is_hashable v then ok false else err type_error
value_in v w = err type_error

-- A dict whose keys are values.
abbrev pub Table : Type 0
Table = List (Json × Json)

abbrev pub table_put : Json → Json → Table → Table
table_put k v [] = (k, v) ∷ []
table_put k v ((j, w) ∷ t) = if value_eq j k then (j, v) ∷ t else (j, w) ∷ table_put k v t

abbrev pub table_find : Json → Table → Option Json
table_find k [] = none
table_find k ((j, w) ∷ t) = if value_eq j k then some w else table_find k t

abbrev table_has : Table → Json → Bool
table_has t k = elim (table_find k t) [ none ↦ false | some _ ↦ true ]

abbrev table_values : Table → List Json
table_values t = map (λ e. e.1) t
