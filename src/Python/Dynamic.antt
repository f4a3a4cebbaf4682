-- ===== src/Python/Dynamic.antt =====
-- Python's operations on values in code that changes a state `S`: each raises where Python's does.
use claude_studio.Prelude.{
  ℕ, String, Bool, true, false, ◌||◌, none, some, List, [], ◌∷◌, if◌then◌else◌,
}
use claude_studio.Prelude.Int.{pos}
use claude_studio.Python.Json.{Json, int, str, truthy}
use claude_studio.Python.Result.{
  ok, err, type_error, key_missing, stop_iteration, get, get_or, index, assertion_error,
}
use claude_studio.Python.Values.{value_eq, value_lt, text_in, is_hashable}
use claude_studio.Python.Stateful.{Stateful, ◌>>=◌, ◌>>◌, pure, raise, lift}
use claude_studio.Python.Operations.{
  elements, list_length, nth_result, prefix_result, strip_result, starts_with_result, join_result,
  absolute_result, value_in, table_put, table_find,
}
pub use claude_studio.Python.Operations.{from_list, letters, keys, size, concat, Table}

module _ {S : Type 0} where
  -- `v[k]`, `v.get(k)`, `v.get(k, d)`
  abbrev pub item : Json → String → Stateful S Json
  item v k = lift (index k v)

  -- `v[k]` for a key that is a text itself.
  abbrev pub item_at : Json → Json → Stateful S Json
  item_at v k = elim k [ str s ↦ item v s | _ ↦ raise type_error ]

  abbrev pub get_item : Json → String → Stateful S Json
  get_item v k = lift (get k v)

  abbrev pub get_item_or : Json → String → Json → Stateful S Json
  get_item_or v k d = lift (get_or k d v)

  abbrev pub nth : Json → ℕ → Stateful S Json
  nth v n = lift (nth_result v n)

  abbrev pub prefix : Json → ℕ → Stateful S Json
  prefix v n = lift (prefix_result v n)

  abbrev pub each : Json → Stateful S (List Json)
  each v = lift (elements v)

  abbrev pub stripped : Json → Stateful S Json
  stripped v = lift (strip_result v)

  abbrev pub starts : Json → String → Stateful S Bool
  starts v p = lift (starts_with_result v p)

  -- `len(v)`
  abbrev pub len : Json → Stateful S Json
  len v = do vs ← each v; pure (int (pos (list_length vs)))

  -- `a < b`, `a <= b`
  abbrev pub less : Json → Json → Stateful S Bool
  less a b = lift (value_lt a b)

  abbrev pub at_most : Json → Json → Stateful S Bool
  at_most a b = do lt ← less a b; pure (lt || value_eq a b)

  -- `a > b`, `a >= b`
  abbrev pub greater : Json → Json → Stateful S Bool
  greater a b = less b a

  abbrev pub at_least : Json → Json → Stateful S Bool
  at_least a b = at_most b a

  abbrev pub absolute : Json → Stateful S Json
  absolute v = lift (absolute_result v)

  -- `v in w`
  abbrev pub within_value : Json → Json → Stateful S Bool
  within_value v w = lift (value_in v w)

  -- `a or b` of values.
  abbrev pub or_value : Json → Stateful S Json → Stateful S Json
  or_value a b = if truthy a then pure a else b

  -- `k in v` for a text `k`.
  abbrev pub within : String → Json → Stateful S Bool
  within k v = lift (text_in k v)

  -- `a and b`, `a or b`: the second is evaluated only if the first does not decide.
  abbrev pub both : Stateful S Bool → Stateful S Bool → Stateful S Bool
  both a b = a >>= λ x. elim x [ true ↦ b | false ↦ pure false ]

  abbrev pub either : Stateful S Bool → Stateful S Bool → Stateful S Bool
  either a b = a >>= λ x. elim x [ true ↦ pure true | false ↦ b ]

  -- A value that is to be a key.
  abbrev pub hashed : Json → Stateful S Json
  hashed v = (λ s. (if is_hashable v then ok v else err type_error, s))

  abbrev pub join : String → List Json → Stateful S Json
  join separator vs = lift (join_result separator vs)

  -- `assert`, with a message that is made only if the test fails.
  abbrev pub check_or : Bool → Stateful S String → Stateful S (Unit {0})
  check_or b message = elim b [
    | true ↦ pure tt
    | false ↦ message >>= λ m. raise (assertion_error m)
  ]

  -- Generator expressions: `any`, `all`, `next` stop at the first element that decides.
  unfoldable pub any_of : (Json → Stateful S Bool) → List Json → Stateful S Bool
  any_of p [] = pure false
  any_of p (v ∷ vs) = either (p v) (any_of p vs)

  unfoldable pub all_of : (Json → Stateful S Bool) → List Json → Stateful S Bool
  all_of p [] = pure true
  all_of p (v ∷ vs) = both (p v) (all_of p vs)

  unfoldable pub next_of : (Json → Stateful S Bool) → List Json → Stateful S Json
  next_of p [] = raise stop_iteration
  next_of p (v ∷ vs) = p v >>= λ b. elim b [ true ↦ pure v | false ↦ next_of p vs ]

  -- List comprehensions, with and without a condition.
  unfoldable pub select_of {ℓ} :
      {A : Type ℓ}
      → (Json → Stateful S Bool)
      → (Json → Stateful S A)
      → List Json
      → Stateful S (List A)
  select_of p f [] = pure []
  select_of p f (v ∷ vs) = p v >>= λ b. elim b [
    | true ↦ (do w ← f v; ws ← select_of p f vs; pure (w ∷ ws))
    | false ↦ select_of p f vs
  ]

  -- `for v in vs: ...`
  unfoldable pub each_do : (Json → Stateful S (Unit {0})) → List Json → Stateful S (Unit {0})
  each_do f [] = pure tt
  each_do f (v ∷ vs) = f v >> each_do f vs

  unfoldable pub map_of {ℓ} : {A : Type ℓ} → (Json → Stateful S A) → List Json → Stateful S (List A)
  map_of f [] = pure []
  map_of f (v ∷ vs) = do w ← f v; ws ← map_of f vs; pure (w ∷ ws)

  -- A dict comprehension, from its first key to its last.
  unfoldable pub table_of : (Json → Stateful S (Json × Json)) → List Json → Table → Stateful S Table
  table_of f [] t = pure t
  table_of f (v ∷ vs) t = do (k, w) ← f v; key ← hashed k; table_of f vs (table_put key w t)

  -- `d[k]` of such a dict.
  abbrev pub table_item : Table → Json → Stateful S Json
  table_item t k s = (elim (table_find k t) [ none ↦ err (key_missing k) | some v ↦ ok v ], s)
