-- ===== src/Github/Api/Store.antt =====
-- The issue store under the three methods: what is numbered, what persists, what is refused.
use claude_studio.Prelude.{
  ℕ, ◌+◌, ◌≤◌, ◌≡◌, refl, sym, ap, ap₂, subst, ◌∙◌, le_trans, String, str_eq, eq_iff, true, ◌&&◌,
  none, some, [], arith, ◌==◌, if◌then◌else◌, Bool-cases, Option-cases, inl, inr,
}
use claude_studio.Python.Dict.{find, put, find-put, or_default, nat_key, text_key}
use claude_studio.Github.Api.{Issue, Server, stored, count, save}

pub stored-save :
    (key k : String) (n m : ℕ) (i : Issue) (s : Server)
    → stored (save key n i s) k m ≡ (if str_eq key k && n == m then some i else stored s k m)
unfolding stored save
stored-save key k n m i s = ground (
  arith,
  eq_iff key k,
  find-put key k (put n i (or_default [] (find key s.issues))) s.issues,
  find-put n m i (or_default [] (find key s.issues)),
  λ (e : key ≡ k). ap (λ j. find m (or_default [] (find j s.issues))) e,
)

pub count-save :
    (key k : String) (n : ℕ) (i : Issue) (s : Server) → count (save key n i s) k ≡ count s k
unfolding count save
count-save key k n i s = refl

-- Every issue stands under its own number, and no number is above the repository's counter.
pub record IsValid (s : Server) : Type 0 where
  pub counted : (key : String) (n : ℕ) (i : Issue) → stored s key n ≡ some i → n ≤ count s key
  pub numbered : (key : String) (n : ℕ) (i : Issue) → stored s key n ≡ some i → i.number ≡ n

-- What an issue keeps for ever, whatever is done to its title and its state.
abbrev pub IsSameIssue : Issue → Issue → Type 0
IsSameIssue i j = (j.number ≡ i.number) × (j.body ≡ i.body) × (j.html_url ≡ i.html_url)

-- No issue is lost or replaced, and no counter goes down.
pub record Persists (s t : Server) : Type 0 where
  pub kept :
      (key : String) (n : ℕ) (i : Issue)
      → stored s key n ≡ some i
      → (j : Issue) × (stored t key n ≡ some j) × IsSameIssue i j
  pub grown : (key : String) → count s key ≤ count t key

pub Persists-refl : (s : Server) → Persists s s
Persists-refl s = record {
  kept = λ key n i h. (i, h, (refl, refl, refl));
  grown = λ key. omega arith;
}

same_place : (key k : String) (n m : ℕ) → (str_eq key k && n == m) ≡ true → (key ≡ k) × (n ≡ m)
same_place key k n m h = (ground (arith, eq_iff key k), ground arith)

some_inj {ℓ} : {A : Type ℓ} {a b : A} → some a ≡ some b → a ≡ b
some_inj h = cc

none-ne-some {ℓ} : {A : Type ℓ} {a : A} → ¬ (none ≡ some a)
none-ne-some h = cc

-- An issue is stored over one that it continues.
pub save-Persists :
    (key : String) (n : ℕ) (i j : Issue) (s : Server)
    → stored s key n ≡ some i
    → IsSameIssue i j
    → Persists s (save key n j s)
save-Persists key n i j s there same = record {
  kept = λ k m g h. elim (Bool-cases (str_eq key k && n == m)) [
    | inl here ↦
        let (ek, en) = same_place key k n m here in
        let moved : stored s key n ≡ stored s k m = ap₂ (stored s) ek en in
        let e : i ≡ g = some_inj (sym there ∙ moved ∙ h) in
        (j, rw (stored-save key k n m j s, here) refl, subst (λ x. IsSameIssue x j) e same)
    | inr away ↦ (g, rw (stored-save key k n m j s, away) h, (refl, refl, refl))
  ];
  grown = λ k. rw (count-save key k n j s) (omega arith);
}

pub save-IsValid :
    (key : String) (n : ℕ) (j : Issue) (s : Server)
    → IsValid s
    → n ≤ count s key
    → j.number ≡ n
    → IsValid (save key n j s)
save-IsValid key n j s v le num = record {
  counted = λ k m g h. rw (count-save key k n j s) (elim (Bool-cases (str_eq key k && n == m)) [
    | inl here ↦
        let (ek, en) = same_place key k n m here in subst (λ x. m ≤ count s x) ek (omega arith)
    | inr away ↦ v.counted k m g (rw (stored-save key k n m j s, away) at h)
  ]);
  numbered = λ k m g h. elim (Bool-cases (str_eq key k && n == m)) [
    | inl here ↦
        let (ek, en) = same_place key k n m here in
        let e : some j ≡ some g = rw (stored-save key k n m j s, here) at h in
        ap (λ x. x.number) (sym (some_inj e)) ∙ num ∙ en
    | inr away ↦ v.numbered k m g (rw (stored-save key k n m j s, away) at h)
  ];
}

-- Counting on in one repository.
abbrev pub bump : String → Server → Server
bump key s = record s { counter = put key (count s key + 1) s.counter }

pub stored-bump : (key k : String) (n : ℕ) (s : Server) → stored (bump key s) k n ≡ stored s k n
unfolding stored
stored-bump key k n s = refl

pub count-bump :
    (key k : String) (s : Server)
    → count (bump key s) k ≡ (if str_eq key k then count s key + 1 else count s k)
unfolding count
count-bump key k s =
    ground (arith, find-put key k (or_default 0 (find key s.counter) + 1) s.counter)

bump-grown : (key k : String) (s : Server) → count s k ≤ count (bump key s) k
bump-grown key k s = rw (count-bump key k s) (elim (Bool-cases (str_eq key k)) [
  | inl same ↦
      rw same (subst (λ x. count s x ≤ count s key + 1) ((eq_iff key k).0 same) (omega arith))
  | inr other ↦ rw other (omega arith)
])

pub bump-IsValid : (key : String) (s : Server) → IsValid s → IsValid (bump key s)
bump-IsValid key s v = record {
  counted =
      λ k n i h. le_trans (v.counted k n i (rw (stored-bump key k n s) at h)) (bump-grown key k s);
  numbered = λ k n i h. v.numbered k n i (rw (stored-bump key k n s) at h);
}

pub bump-Persists : (key : String) (s : Server) → Persists s (bump key s)
bump-Persists key s = record {
  kept = λ k n i h. (i, rw (stored-bump key k n s) h, (refl, refl, refl));
  grown = λ k. bump-grown key k s;
}

pub Persists-trans : (s t u : Server) → Persists s t → Persists t u → Persists s u
Persists-trans s t u p q = record {
  kept = λ k n i h.
      let (j, hj, (a, b, c)) = p.kept k n i h in
      let (l, hl, (a', b', c')) = q.kept k n j hj in (l, hl, (a' ∙ a, b' ∙ b, c' ∙ c));
  grown = λ k. le_trans (p.grown k) (q.grown k);
}

-- In a valid store the number that comes next is free.
pub next_is_free : (key : String) (s : Server) → IsValid s → stored s key (count s key + 1) ≡ none
next_is_free key s v = elim (Option-cases (stored s key (count s key + 1))) [
  | inl free ↦ free
  | inr (i, taken) ↦ absurd (omega (arith, v.counted key (count s key + 1) i taken))
]

-- A new issue: it takes the free number, and nothing that is stored is touched.
pub save_new-Persists :
    (key : String) (n : ℕ) (i : Issue) (s : Server)
    → stored s key n ≡ none
    → Persists s (save key n i s)
save_new-Persists key n i s free = record {
  kept = λ k m g h. elim (Bool-cases (str_eq key k && n == m)) [
    | inl here ↦
        let (ek, en) = same_place key k n m here in
        let moved : stored s key n ≡ stored s k m = ap₂ (stored s) ek en in
        let bad : none ≡ some g = sym free ∙ moved ∙ h in absurd (none-ne-some bad)
    | inr away ↦ (g, rw (stored-save key k n m i s, away) h, (refl, refl, refl))
  ];
  grown = λ k. rw (count-save key k n i s) (omega arith);
}
