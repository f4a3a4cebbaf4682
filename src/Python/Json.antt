-- ===== src/Python/Json.antt =====
-- The dynamic values that `json` and `msgpack` hand to the harness, and the operations of Python
-- on them: `d.get(k)`, `d[k]`, truth values and comparison with a text.
use claude_studio.Prelude.{
  ℕ, String, ◌≡◌, refl, Bool, true, false, not, Option, none, some, List, [], ◌∷◌, arith, eq_iff,
  str_eq, if◌then◌else◌, ◌==◌,
}
use claude_studio.Prelude.Int.{ℤ, pos, negsuc}

-- A finite float is a dyadic number: `float m k` is m / 2 ^ k.
mutual
  pub data Json : Type 0 where
    null : Json
    bool : Bool → Json
    int : ℤ → Json
    float : ℤ → ℕ → Json
    str : String → Json
    arr : Items → Json
    obj : Fields → Json

  pub data Items : Type 0 where
    nil : Items
    cons : Json → Items → Items

  pub data Fields : Type 0 where
    end : Fields
    field : String → Json → Fields → Fields

-- `k in d` and `d[k]` of a dict.
abbrev pub lookup : String → Fields → Option Json
lookup k end = none
lookup k (field j v fs) = if str_eq j k then some v else lookup k fs

-- `d[k] = v`: a new key goes to the end.
abbrev pub insert : String → Json → Fields → Fields
insert k v end = field k v end
insert k v (field j w fs) = if str_eq j k then field k v fs else field j w (insert k v fs)

pub lookup-insert :
    (k j : String) (v : Json) (fs : Fields)
    → lookup j (insert k v fs) ≡ (if str_eq k j then some v else lookup j fs)
lookup-insert k j v end = refl
lookup-insert k j v (field i w fs) =
    ground (arith, eq_iff k j, eq_iff i k, eq_iff i j, lookup-insert k j v fs)

abbrev is_zero : ℤ → Bool
is_zero (pos n) = n == 0
is_zero (negsuc n) = false

-- `bool(v)`
abbrev pub truthy : Json → Bool
truthy null = false
truthy (bool b) = b
truthy (int n) = not (is_zero n)
truthy (float m k) = not (is_zero m)
truthy (str s) = not (str_eq s "")
truthy (arr nil) = false
truthy (arr (cons v vs)) = true
truthy (obj end) = false
truthy (obj (field k v fs)) = true

-- `v == s` for a text `s`.
abbrev pub is_text : String → Json → Bool
is_text s (str t) = str_eq t s
is_text s null = false
is_text s (bool b) = false
is_text s (int n) = false
is_text s (float m k) = false
is_text s (arr vs) = false
is_text s (obj fs) = false

abbrev pub or_null : Option Json → Json
or_null none = null
or_null (some v) = v

abbrev pub items : Items → List Json
items nil = []
items (cons v vs) = v ∷ items vs

-- No key is listed twice.
abbrev pub HasDistinctKeys : Fields → Type 0
HasDistinctKeys end = Unit
HasDistinctKeys (field k v fs) = (lookup k fs ≡ none) × HasDistinctKeys fs

pub insert-HasDistinctKeys :
    (k : String) (v : Json) (fs : Fields) → HasDistinctKeys fs → HasDistinctKeys (insert k v fs)
insert-HasDistinctKeys k v end h = (refl, tt)
insert-HasDistinctKeys k v (field j w fs) h =
    ground
      (arith, eq_iff j k, eq_iff k j, lookup-insert k j v fs, insert-HasDistinctKeys k v fs h.1)
