-- ===== src/Github/Path.antt =====
-- The two routes of test-harness/lib/github_api_mock.py, `ISSUES_RE` and `ISSUE_RE`. Their groups
-- `[^/]+` hold no slash, so a match is a split at the slashes. A request line has no line break and
-- is read as Latin-1, so `\d` is an ASCII digit and `$` the end. Python refuses an `int` of more than
-- 4300 digits; the model reads it.
pub mod Laws
use claude_studio.Prelude.{
  ℕ, zero, suc, ◌+◌, ◌-◌, ◌*◌, ◌/◌, ◌%◌, ◌<◌, ◌≤◌, ◌≡◌, ◌≢◌, refl, sym, ap, ◌∙◌, String, Char, code,
  str_append, str_eq, eq_iff, Bool, true, false, not, ◌&&◌, Option, none, some, List, [], ◌∷◌,
  arith, leb, ltb, ◌==◌, if◌then◌else◌, Bool-cases, inl, inr,
}

pub data Route : Type 0 where
  issues : String → String → Route
  issue : String → String → ℕ → Route
  nowhere : Route

put_first : Char → List String → List String
put_first c [] = String.◌∷◌ c "" ∷ []
put_first c (p ∷ ps) = String.◌∷◌ c p ∷ ps

-- The parts between the slashes.
unfoldable pub split : String → List String
unfolding put_first
split String.[] = "" ∷ []
split (String.◌∷◌ c s) = if code c == b'/' then "" ∷ split s else put_first c (split s)

abbrev is_digit : Char → Bool
is_digit c = leb b'0' (code c) && leb (code c) b'9'

-- `\d*`, and `int` of it behind the digits that were read before.
unfoldable pub digits_value : ℕ → String → Option ℕ
digits_value acc String.[] = some acc
digits_value acc (String.◌∷◌ c s) =
    let rest = digits_value (acc * 10 + (code c - b'0')) s in if is_digit c then rest else none

-- `int(m.group(3))` of `\d+`
unfoldable pub number_of : String → Option ℕ
number_of String.[] = none
number_of (String.◌∷◌ c s) = digits_value 0 (String.◌∷◌ c s)

numbered : String → String → Option ℕ → Route
numbered owner repo none = nowhere
numbered owner repo (some n) = issue owner repo n

-- The parts of a path, against both expressions.
route_parts : List String → Route
unfolding numbered
route_parts (root ∷ repos ∷ owner ∷ repo ∷ last ∷ []) =
    if str_eq root ""
      && str_eq repos "repos"
      && not (str_eq owner "")
      && not (str_eq repo "")
      && str_eq last "issues"
    then issues owner repo
    else nowhere
route_parts (root ∷ repos ∷ owner ∷ repo ∷ middle ∷ number ∷ []) =
    if str_eq root ""
      && str_eq repos "repos"
      && not (str_eq owner "")
      && not (str_eq repo "")
      && str_eq middle "issues"
    then numbered owner repo (number_of number)
    else nowhere
route_parts _ = nowhere

unfoldable pub route : String → Route
unfolding split route_parts
route path = route_parts (split path)

-- `f"{n}"` of a natural number: the decimal digits, on fuel.
abbrev digit : ℕ → Char
digit n =
    if n == 0
    then "0"
    else if n == 1
    then "1"
    else if n == 2
    then "2"
    else if n == 3
    then "3"
    else if n == 4
    then "4"
    else if n == 5
    then "5"
    else if n == 6
    then "6"
    else if n == 7
    then "7"
    else if n == 8
    then "8"
    else "9"

show_digits : ℕ → ℕ → String → String
show_digits zero n tail = tail
show_digits (suc fuel) n tail =
    let longer = show_digits fuel (n / 10) (String.◌∷◌ (digit (n % 10)) tail) in
    if ltb n 10 then String.◌∷◌ (digit n) tail else longer

unfoldable pub show : ℕ → String
unfolding show_digits
show n = show_digits (suc n) n ""
