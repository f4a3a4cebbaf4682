-- ===== src/Python/Stateful.antt =====
-- Python code that changes a state of type `S` and may raise. The state stays changed when it does.
use claude_studio.Prelude.{◌≡◌, ap, subst, sym, ◌∙◌, inl, inr, Bool, if◌then◌else◌}
use claude_studio.Python.Result.{Exception, Result, ok, err, Result-cases, err-ne-ok}

abbrev pub Stateful {ℓ} : Type 0 → Type ℓ → Type ℓ
Stateful S A = S → Result A × S

infixl 5 ◌>>=◌ ◌>>◌
abbrev pub ◌>>=◌ {ℓ κ} :
    {S : Type 0} {A : Type ℓ} {B : Type κ} → Stateful S A → (A → Stateful S B) → Stateful S B
◌>>=◌ m f c = let (r, c') = m c in elim r [ ok a ↦ f a c' | err e ↦ (err e, c') ]

-- A bind whose first part is known.
module _ {ℓ κ} {S : Type 0} {A : Type ℓ} {B : Type κ} (m : Stateful S A) (f : A → Stateful S B)
    (c : S) where
  pub >>=-ok : {a : A} → (m c).0 ≡ ok a → (m >>= f) c ≡ f a (m c).1
  >>=-ok p =
      ap (λ r. elim r as (λ _. Result B × S) [ ok a ↦ f a (m c).1 | err e ↦ (err e, (m c).1) ]) p

  pub >>=-err : {e : Exception} → (m c).0 ≡ err e → (m >>= f) c ≡ (err e, (m c).1)
  >>=-err p =
      ap (λ r. elim r as (λ _. Result B × S) [ ok a ↦ f a (m c).1 | err e ↦ (err e, (m c).1) ]) p

  pub >>=-inv :
      {b : B} → ((m >>= f) c).0 ≡ ok b → (a : A) × ((m c).0 ≡ ok a) × ((m >>= f) c ≡ f a (m c).1)
  >>=-inv {b} h = elim (Result-cases (m c).0) [
    | inl (a, p) ↦ (a, p, >>=-ok p)
    | inr (e, p) ↦
        let bad : err e ≡ ok b = sym (ap (λ o. o.0) (>>=-err p)) ∙ h in absurd (err-ne-ok bad)
  ]

  -- A property of results that holds at every exception of the first part and after it.
  pub >>=-result {μ} :
      (P : Result B → Type μ)
      → ((e : Exception) → (m c).0 ≡ err e → P (err e))
      → ((a : A) → (m c).0 ≡ ok a → P (f a (m c).1).0)
      → P ((m >>= f) c).0
  >>=-result P on_err on_ok = elim (Result-cases (m c).0) [
    | inl (a, p) ↦ subst (λ o. P o.0) (sym (>>=-ok p)) (on_ok a p)
    | inr (e, p) ↦ subst (λ o. P o.0) (sym (>>=-err p)) (on_err e p)
  ]

  -- What every part keeps, the chain keeps.
  pub >>=-keeps {μ} :
      (P : S → Type μ) → ((a : A) (d : S) → P d → P (f a d).1) → P (m c).1 → P ((m >>= f) c).1
  >>=-keeps P keep h =
      elim (m c).0
        as (λ r.
          P (elim r as (λ _. Result B × S) [ ok a ↦ f a (m c).1 | err e ↦ (err e, (m c).1) ]).1) [
            | ok a ↦ keep a (m c).1 h
            | err e ↦ h
          ]

abbrev pub ◌>>◌ {ℓ κ} :
    {S : Type 0} {A : Type ℓ} {B : Type κ} → Stateful S A → Stateful S B → Stateful S B
m >> k = m >>= λ _. k

module _ {ℓ} {S : Type 0} {A : Type ℓ} where
  abbrev pub pure : A → Stateful S A
  pure a c = (ok a, c)

  abbrev pub raise : Exception → Stateful S A
  raise e c = (err e, c)

  abbrev pub lift : Result A → Stateful S A
  lift r c = (r, c)

abbrev pub raise_if : {S : Type 0} → Bool → Exception → Stateful S (Unit {0})
raise_if b e c = (if b then err e else ok tt, c)
