-- ===== src/Python/Builtins.antt =====
-- More of what Python gives on values: sets and tables as a whole, sorting, negative indices, repeated
-- texts, and the `try` that waits for a `RemoteError`.
use claude_studio.Prelude.{
  ℕ, zero, suc, String, str_append, Bool, true, false, List, [], ◌∷◌, if◌then◌else◌, ◌||◌, map,
  str_eq,
}
use claude_studio.Python.Json.{Json, str, arr, obj, Fields, end, field, items}
use claude_studio.Python.Result.{
  Result, ok, err, remote_error, type_error, attribute_error, index_error,
}
use claude_studio.Python.Values.{value_lt}
use claude_studio.Python.Dynamic.{Table, from_list, keys, letters, hashed, each}
use claude_studio.Python.Stateful.{Stateful, ◌>>=◌, ◌>>◌, pure, lift}

-- `s * n`
abbrev pub repeated : ℕ → String → String
repeated zero s = ""
repeated (suc n) s = str_append s (repeated n s)

-- `separator.join(ss)` of texts.
abbrev pub joined : String → List String → String
joined separator [] = ""
joined separator (s ∷ []) = s
joined separator (s ∷ t ∷ ss) = str_append s (str_append separator (joined separator (t ∷ ss)))

-- `Path(v)`, as its text.
abbrev pub path_of : Json → Result String
path_of v = elim v [ str s ↦ ok s | _ ↦ err type_error ]

abbrev pub is_dict : Json → Bool
is_dict v = elim v [ obj fs ↦ true | _ ↦ false ]

-- `s.endswith(p)`
abbrev text_ends : String → String → Bool
text_ends String.[] p = str_eq "" p
text_ends (String.◌∷◌ c s) p = str_eq (String.◌∷◌ c s) p || text_ends s p

abbrev last_of : List Json → Result Json
last_of [] = err index_error
last_of (v ∷ []) = ok v
last_of (v ∷ w ∷ vs) = last_of (w ∷ vs)

-- `v[-1]`
abbrev last_result : Json → Result Json
last_result v = elim v [
  | arr vs ↦ last_of (items vs)
  | str s ↦ last_of (letters s)
  | _ ↦ err type_error
]

abbrev without_last : List Json → List Json
without_last [] = []
without_last (v ∷ []) = []
without_last (v ∷ w ∷ vs) = v ∷ without_last (w ∷ vs)

abbrev text_without_last : String → String
text_without_last String.[] = ""
text_without_last (String.◌∷◌ c String.[]) = ""
text_without_last (String.◌∷◌ c (String.◌∷◌ d s)) =
    String.◌∷◌ c (text_without_last (String.◌∷◌ d s))

-- `v[:-1]`
abbrev all_but_last_result : Json → Result Json
all_but_last_result v = elim v [
  | arr vs ↦ ok (arr (from_list (without_last (items vs))))
  | str s ↦ ok (str (text_without_last s))
  | _ ↦ err type_error
]

abbrev values : Fields → List Json
values end = []
values (field k v fs) = v ∷ values fs

-- `sorted(vs)`: an element is put in front of the first one that is not less.
abbrev put_in_order : Json → List Json → Result (List Json)
put_in_order v [] = ok (v ∷ [])
put_in_order v (w ∷ ws) =
    let rest = put_in_order v ws in
    elim (value_lt w v) [
      | err e ↦ err e
      | ok before ↦
          if before then elim rest [ ok vs ↦ ok (w ∷ vs) | err e ↦ err e ] else ok (v ∷ w ∷ ws)
    ]

abbrev sorted_result : List Json → Result (List Json)
sorted_result [] = ok []
sorted_result (v ∷ vs) = elim (sorted_result vs) [ ok ws ↦ put_in_order v ws | err e ↦ err e ]

-- The keys of a dict whose keys are values.
abbrev pub table_keys : Table → List Json
table_keys t = map (λ e. e.0) t

module _ {S : Type 0} where
  abbrev pub ends : Json → String → Stateful S Bool
  ends v p = lift (elim v [ str s ↦ ok (text_ends s p) | _ ↦ err attribute_error ])

  abbrev pub last : Json → Stateful S Json
  last v = lift (last_result v)

  abbrev pub all_but_last : Json → Stateful S Json
  all_but_last v = lift (all_but_last_result v)

  abbrev pub sorted_values : List Json → Stateful S (List Json)
  sorted_values vs = lift (sorted_result vs)

  -- `v.keys()`, `v.values()`
  abbrev pub dict_keys : Json → Stateful S (List Json)
  dict_keys v = lift (elim v [ obj fs ↦ ok (keys fs) | _ ↦ err attribute_error ])

  abbrev pub dict_values : Json → Stateful S (List Json)
  dict_values v = lift (elim v [ obj fs ↦ ok (values fs) | _ ↦ err attribute_error ])

  -- `tuple(v)`, to be an element of a set.
  abbrev pub tuple_of : Json → Stateful S Json
  tuple_of v = do vs ← each v; hashable ← each_hashed vs; pure (arr (from_list hashable))
    where
      each_hashed : List Json → Stateful S (List Json)
      each_hashed [] = pure []
      each_hashed (w ∷ ws) = do x ← hashed w; xs ← each_hashed ws; pure (x ∷ xs)

  -- `next((v for v in vs if p(v)), otherwise)`
  unfoldable pub next_or : (Json → Stateful S Bool) → List Json → Stateful S Json → Stateful S Json
  next_or p [] otherwise = otherwise
  next_or p (v ∷ vs) otherwise =
      p v >>= λ b. elim b [ true ↦ pure v | false ↦ next_or p vs otherwise ]

  -- `for k, v in t.items(): ...`
  unfoldable pub each_item : (Json → Json → Stateful S (Unit {0})) → Table → Stateful S (Unit {0})
  each_item f [] = pure tt
  each_item f ((k, v) ∷ t) = f k v >> each_item f t

  -- `try: m` with `except P.RemoteError: refused = True`, and with `except P.RemoteError as e:
  -- refused = p(e.message)`; other exceptions pass.
  abbrev pub refused_with : {A : Type 0} → Stateful S A → (Json → Stateful S Bool) → Stateful S Bool
  refused_with m p s =
      let (r, s') = m s in
      elim r [
        | ok a ↦ (ok false, s')
        | err e ↦ elim e [
          | remote_error code message method ↦ p message s'
          | other ↦ (err other, s')
        ]
      ]

  abbrev pub refused : {A : Type 0} → Stateful S A → Stateful S Bool
  refused m = refused_with m (λ message. pure true)
