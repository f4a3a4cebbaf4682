-- ===== src/Python/Result.antt =====
-- Exceptions as values, and the chaining of fallible steps.
use claude_studio.Prelude.{refl, ◌⊎◌, inl, inr, ◌≡◌, ap, String, Option, none, some}
use claude_studio.Python.Json.{Json, obj, lookup, or_null, null, bool, int, float, str, arr}

-- The exceptions that the modelled code raises or meets. `remote_error` is the harness's own class,
-- with the fields code, message and method. `out_of_fuel` is none of Python's: it marks a loop of
-- the model that was cut short, and the theorems on the loops exclude it.
pub data Exception : Type 0 where
  value_error : String → Exception
  connection_error : String → Exception
  timeout_error : String → Exception
  struct_error unpack_error attribute_error type_error index_error stop_iteration
        called_process_error :
      Exception
  key_error : String → Exception
  key_missing : Json → Exception
  remote_error : Json → Json → String → Exception
  file_not_found runtime_error assertion_error : String → Exception
  http_error : Json → Exception
  out_of_fuel : Exception

pub data Result {ℓ} (A : Type ℓ) : Type ℓ where
  ok : A → Result A
  err : Exception → Result A

-- What follows a step that may raise.
infixl 5 ◌>>=◌
abbrev pub ◌>>=◌ {ℓ κ} : {A : Type ℓ} {B : Type κ} → Result A → (A → Result B) → Result B
◌>>=◌ (err raised) rest = err raised
◌>>=◌ (ok value) rest = rest value

-- `v.get(k)`: a value that is no dict has no `get`.
abbrev pub get : String → Json → Result Json
get k (obj fs) = ok (or_null (lookup k fs))
get k null = err attribute_error
get k (bool b) = err attribute_error
get k (int n) = err attribute_error
get k (float m e) = err attribute_error
get k (str s) = err attribute_error
get k (arr vs) = err attribute_error

abbrev or_key_error : String → Option Json → Result Json
or_key_error k none = err (key_error k)
or_key_error k (some v) = ok v

-- `v[k]` for a text `k`.
abbrev pub index : String → Json → Result Json
index k (obj fs) = or_key_error k (lookup k fs)
index k null = err type_error
index k (bool b) = err type_error
index k (int n) = err type_error
index k (float m e) = err type_error
index k (str s) = err type_error
index k (arr vs) = err type_error

pub ok-injective {ℓ} : {A : Type ℓ} {a b : A} → ok a ≡ ok b → a ≡ b
ok-injective {A} {a} e = ap (λ r. elim r as (λ _. A) [ ok x ↦ x | err _ ↦ a ]) e

pub Result-cases {ℓ} :
    {A : Type ℓ} (r : Result A) → ((a : A) × (r ≡ ok a)) ⊎ ((e : Exception) × (r ≡ err e))
Result-cases (ok a) = inl (a, refl)
Result-cases (err e) = inr (e, refl)

pub err-ne-ok {ℓ} : {A : Type ℓ} {a : A} {e : Exception} → ¬ (err e ≡ ok a)
err-ne-ok h = cc

-- `v.get(k, d)`
abbrev pub get_or : String → Json → Json → Result Json
get_or k d (obj fs) = ok (elim (lookup k fs) [ none ↦ d | some v ↦ v ])
get_or k d null = err attribute_error
get_or k d (bool b) = err attribute_error
get_or k d (int n) = err attribute_error
get_or k d (float m e) = err attribute_error
get_or k d (str s) = err attribute_error
get_or k d (arr vs) = err attribute_error

-- A chain that returns: its first step has returned, and so has the rest on that value.
pub >>=-inv {ℓ κ} :
    {A : Type ℓ} {B : Type κ} (first : Result A) (rest : A → Result B) {end : B}
    → (first >>= rest) ≡ ok end
    → (mid : A) × (first ≡ ok mid) × (rest mid ≡ ok end)
>>=-inv (err raised) rest h = cc
>>=-inv (ok value) rest h = (value, refl, h)

-- A chain returns if its first step does and the rest does on that value.
pub >>=-ok {ℓ κ} :
    {A : Type ℓ} {B : Type κ} {first : Result A} (rest : A → Result B) {mid : A}
    → first ≡ ok mid
    → (end : B) × (rest mid ≡ ok end)
    → (end : B) × ((first >>= rest) ≡ ok end)
>>=-ok rest e (end, h) = (end, rw e h)
