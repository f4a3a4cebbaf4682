-- ===== src/Github/Path/Laws.antt =====
-- The routes that the GitHub stand-in recognises are the paths that its clients build.
use text.Mathlib.TextLemmas.{nil-append, cons-append, append_assoc}
use claude_studio.Prelude.{
  ℕ, zero, suc, ◌+◌, ◌-◌, ◌*◌, ◌/◌, ◌%◌, ◌<◌, ◌≡◌, ◌≢◌, refl, sym, ap, ◌∙◌, String, Char, code,
  str_append, str_eq, eq_iff, true, false, some, [], ◌∷◌, arith, ltb, Bool-cases, inl, inr, ltb→lt,
  ltb→le,
}
use claude_studio.Github.Path.{
  issues, issue, split, digits_value, number_of, route_parts, route, digit, show_digits, show,
  is_digit,
}

abbrev pub NoSlash : String → Type 0
NoSlash String.[] = Unit
NoSlash (String.◌∷◌ c s) = (code c ≢ b'/') × NoSlash s

split_of_NoSlash : (s : String) → NoSlash s → split s ≡ s ∷ []
unfolding split
split_of_NoSlash String.[] h = refl
split_of_NoSlash (String.◌∷◌ c s) h = ground (arith, split_of_NoSlash s h.1)

split-append : (p s : String) → NoSlash p → split (str_append p (str_append "/" s)) ≡ p ∷ split s
unfolding split
split-append String.[] s h = rw (nil-append, cons-append, nil-append) refl
split-append (String.◌∷◌ c p) s h = rw cons-append (ground (arith, split-append p s h.1))

digit_lem : (n : ℕ) → n < 10 → (code (digit n) ≡ b'0' + n) × (is_digit (digit n) ≡ true)
digit_lem zero h = (refl, refl)
digit_lem (suc zero) h = (refl, refl)
digit_lem (suc (suc zero)) h = (refl, refl)
digit_lem (suc (suc (suc zero))) h = (refl, refl)
digit_lem (suc (suc (suc (suc zero)))) h = (refl, refl)
digit_lem (suc (suc (suc (suc (suc zero))))) h = (refl, refl)
digit_lem (suc (suc (suc (suc (suc (suc zero)))))) h = (refl, refl)
digit_lem (suc (suc (suc (suc (suc (suc (suc zero))))))) h = (refl, refl)
digit_lem (suc (suc (suc (suc (suc (suc (suc (suc zero)))))))) h = (refl, refl)
digit_lem (suc (suc (suc (suc (suc (suc (suc (suc (suc zero))))))))) h = (refl, refl)
digit_lem (suc (suc (suc (suc (suc (suc (suc (suc (suc (suc n)))))))))) h = absurd (omega arith)

digits_value-cons :
    (acc d : ℕ) (tail : String)
    → d < 10
    → digits_value acc (String.◌∷◌ (digit d) tail) ≡ digits_value (acc * 10 + d) tail
unfolding digits_value
digits_value-cons acc d tail h =
    let (value, is) = digit_lem d h in
    let e : acc * 10 + (code (digit d) - b'0') ≡ acc * 10 + d = omega arith in
    rw is (ap (λ a. digits_value a tail) e)

digits_value-show_digits :
    (fuel n : ℕ) (tail : String)
    → n < fuel
    → digits_value 0 (show_digits fuel n tail) ≡ digits_value n tail
unfolding show_digits
digits_value-show_digits zero n tail h = absurd (omega arith)
digits_value-show_digits (suc fuel) n tail h = elim (Bool-cases (ltb n 10)) [
  | inl short ↦
      rw short (
        digits_value-cons 0 n tail (ltb→lt _ _ short) ∙ ap (λ a. digits_value a tail) (omega arith))
  | inr long ↦
      let big = ltb→le 10 n long in
      rw long (
        digits_value-show_digits fuel (n / 10) (String.◌∷◌ (digit (n % 10)) tail) (omega arith)
        ∙ digits_value-cons (n / 10) (n % 10) tail (omega arith)
        ∙ ap (λ a. digits_value a tail) (omega arith))
]

digit-ne-slash : (d : ℕ) → d < 10 → code (digit d) ≢ b'/'
digit-ne-slash d h = let (value, is) = digit_lem d h in omega arith

show_digits-NoSlash :
    (fuel n : ℕ) (tail : String) → n < fuel → NoSlash tail → NoSlash (show_digits fuel n tail)
unfolding show_digits
show_digits-NoSlash zero n tail h t = absurd (omega arith)
show_digits-NoSlash (suc fuel) n tail h t = elim (Bool-cases (ltb n 10)) [
  | inl short ↦ rw short (digit-ne-slash n (ltb→lt _ _ short), t)
  | inr long ↦
      let big = ltb→le 10 n long in
      rw long (
        show_digits-NoSlash fuel (n / 10) (String.◌∷◌ (digit (n % 10)) tail) (omega arith)
          (digit-ne-slash (n % 10) (omega arith), t))
]

number_of-digits : (s : String) → s ≢ "" → number_of s ≡ digits_value 0 s
unfolding number_of
number_of-digits String.[] h = absurd (h refl)
number_of-digits (String.◌∷◌ c s) h = refl

show_digits-ne-nil :
    (fuel n : ℕ) (c : Char) (tail : String) → show_digits fuel n (String.◌∷◌ c tail) ≢ ""
unfolding show_digits
show_digits-ne-nil zero n c tail h = cc
show_digits-ne-nil (suc fuel) n c tail h = elim (Bool-cases (ltb n 10)) [
  | inl short ↦ let bad : String.◌∷◌ (digit n) (String.◌∷◌ c tail) ≡ "" = rw short at h in cc
  | inr long ↦ show_digits-ne-nil fuel (n / 10) (digit (n % 10)) (String.◌∷◌ c tail) (rw long at h)
]

show-ne-nil : (n : ℕ) → show n ≢ ""
unfolding show show_digits
show-ne-nil n h = elim (Bool-cases (ltb n 10)) [
  | inl short ↦ let bad : String.◌∷◌ (digit n) "" ≡ "" = rw short at h in cc
  | inr long ↦ show_digits-ne-nil n (n / 10) (digit (n % 10)) "" (rw long at h)
]

-- The digits that are printed are read back.
pub number_of-show : (n : ℕ) → number_of (show n) ≡ some n
unfolding show digits_value
number_of-show n =
    number_of-digits (show n) (show-ne-nil n) ∙ digits_value-show_digits (suc n) n "" (omega arith)

show-NoSlash : (n : ℕ) → NoSlash (show n)
unfolding show
show-NoSlash n = show_digits-NoSlash (suc n) n "" (omega arith) tt

split_issues : (s : String) → split (str_append "issues/" s) ≡ "issues" ∷ split s
split_issues s = ap split (append_assoc "issues" "/" s) ∙ split-append "issues" s (ground arith)

slash_issues : (s : String) → str_append "/issues/" s ≡ str_append "/" (str_append "issues/" s)
slash_issues s = append_assoc "/" "issues/" s

-- `f"/repos/{repo}/issues"` and `f"/repos/{repo}/issues/{n}"`, where `repo` is `f"{owner}/{name}"`.
abbrev pub full_name : String → String → String
full_name owner name = str_append owner (str_append "/" name)

abbrev pub issues_path : String → String
issues_path repo = str_append "/repos/" (str_append repo "/issues")

abbrev pub issue_path : String → ℕ → String
issue_path repo n = str_append "/repos/" (str_append repo (str_append "/issues/" (show n)))

-- An owner or a repository name that the routes accept.
abbrev pub IsName : String → Type 0
IsName s = NoSlash s × (s ≢ "")

split_repos : (s : String) → split (str_append "/repos/" s) ≡ "" ∷ "repos" ∷ split s
split_repos s =
    ap split (append_assoc "/" "repos/" s ∙ sym (nil-append _))
    ∙ split-append "" (str_append "repos/" s) tt
    ∙ ap (λ l. "" ∷ l)
        (ap split (append_assoc "repos" "/" s) ∙ split-append "repos" s (ground arith))

split-full_name :
    (owner name rest : String)
    → IsName owner
    → IsName name
    → split (str_append "/repos/" (str_append (full_name owner name) (str_append "/" rest)))
      ≡ "" ∷ "repos" ∷ owner ∷ name ∷ split rest
split-full_name owner name rest ho hn =
    let e : str_append (full_name owner name) (str_append "/" rest)
        ≡ str_append owner (str_append "/" (str_append name (str_append "/" rest))) =
      append_assoc owner _ _ ∙ ap (str_append owner) (append_assoc "/" name _) in
    split_repos _
    ∙ ap (λ s. "" ∷ "repos" ∷ split s) e
    ∙ ap (λ l. "" ∷ "repos" ∷ l) (split-append owner _ ho.0)
    ∙ ap (λ l. "" ∷ "repos" ∷ owner ∷ l) (split-append name rest hn.0)

not_empty : (s : String) → s ≢ "" → str_eq s "" ≡ false
not_empty s h = ground (arith, eq_iff s "")

-- The path of a repository's issues leads to that repository.
pub route-issues_path :
    (owner name : String)
    → IsName owner
    → IsName name
    → route (issues_path (full_name owner name)) ≡ issues owner name
unfolding route
route-issues_path owner name ho hn =
    let parts : split (issues_path (full_name owner name))
        ≡ "" ∷ "repos" ∷ owner ∷ name ∷ split "issues" =
      split-full_name owner name "issues" ho hn in
    ap route_parts parts ∙ rw (not_empty owner ho.1, not_empty name hn.1) refl

-- The path that is built from an owner, a repository (both not empty and without a slash) and an
-- issue number is recognised as that issue of that repository.
pub route-issue_path :
    (owner name : String) (n : ℕ)
    → IsName owner
    → IsName name
    → route (issue_path (full_name owner name) n) ≡ issue owner name n
unfolding route
route-issue_path owner name n ho hn =
    let number_part : split (str_append "issues/" (show n)) ≡ "issues" ∷ show n ∷ [] =
      split_issues (show n) ∙ ap (λ l. "issues" ∷ l) (split_of_NoSlash (show n) (show-NoSlash n)) in
    let parts : split (issue_path (full_name owner name) n)
        ≡ "" ∷ "repos" ∷ owner ∷ name ∷ "issues" ∷ show n ∷ [] =
      ap (λ s. split (str_append "/repos/" (str_append (full_name owner name) s)))
        (slash_issues (show n))
      ∙ split-full_name owner name (str_append "issues/" (show n)) ho hn
      ∙ ap (λ l. "" ∷ "repos" ∷ owner ∷ name ∷ l) number_part in
    ap route_parts parts ∙ rw (not_empty owner ho.1, not_empty name hn.1, number_of-show n) refl
