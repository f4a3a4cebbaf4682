-- ===== src/Python/Text.antt =====
-- The methods of `str` that the modelled code calls.
pub mod Strip
pub mod Lines
use claude_studio.Prelude.{
  String, Char, code, Bool, true, false, ◌&&◌, ◌||◌, leb, ◌==◌, if◌then◌else◌, str_eq, ◌≡◌, refl,
  eq_iff, not, arith, Bool-cases, inl, inr,
}

-- `c.isspace()`
abbrev pub is_space : Char → Bool
is_space ch =
    let c = code ch in
    (leb 9 c && leb c 13)
    || (leb 28 c && leb c 32)
    || c == 0x85
    || c == 0xa0
    || c == 0x1680
    || (leb 0x2000 c && leb c 0x200a)
    || c == 0x2028
    || c == 0x2029
    || c == 0x202f
    || c == 0x205f
    || c == 0x3000

pub lstrip : String → String
lstrip String.[] = ""
lstrip (String.◌∷◌ c s) = if is_space c then lstrip s else String.◌∷◌ c s

-- One character in front of a text whose right end is stripped.
abbrev put : Char → String → String
put c String.[] = if is_space c then "" else String.◌∷◌ c ""
put c (String.◌∷◌ d s) = String.◌∷◌ c (String.◌∷◌ d s)

pub rstrip : String → String
rstrip String.[] = ""
rstrip (String.◌∷◌ c s) = put c (rstrip s)

-- `s.strip()`
unfoldable pub strip : String → String
unfolding lstrip rstrip
strip s = rstrip (lstrip s)

cons-ne-empty : (c : Char) (s : String) → str_eq (String.◌∷◌ c s) "" ≡ false
cons-ne-empty c s = elim (Bool-cases (str_eq (String.◌∷◌ c s) "")) [
  | inr ne ↦ ne
  | inl e ↦ let bad = (eq_iff (String.◌∷◌ c s) "").0 e in cc
]

put-ne-empty : (c : Char) (s : String) → is_space c ≡ false → str_eq (put c s) "" ≡ false
put-ne-empty c String.[] black = rw black (cons-ne-empty c "")
put-ne-empty c (String.◌∷◌ d s) black = cons-ne-empty c (String.◌∷◌ d s)

-- A text that begins with a character that is no space does not strip to the empty text.
pub strip-ne-empty :
    (c : Char) (s : String) → is_space c ≡ false → str_eq (strip (String.◌∷◌ c s)) "" ≡ false
unfolding strip lstrip rstrip
strip-ne-empty c s black = rw black (put-ne-empty c (rstrip s) black)

-- Some character of the text is no space.
abbrev pub has_visible : String → Bool
has_visible String.[] = false
has_visible (String.◌∷◌ c s) = not (is_space c) || has_visible s

pub strip-is_empty : (s : String) → str_eq (strip s) "" ≡ not (has_visible s)
unfolding strip lstrip rstrip
strip-is_empty String.[] = refl
strip-is_empty (String.◌∷◌ c s) = ground (arith, strip-is_empty s, strip-ne-empty c s)

-- `s.startswith(p)`
unfoldable pub starts_with : String → String → Bool
starts_with s String.[] = true
starts_with String.[] (String.◌∷◌ p ps) = false
starts_with (String.◌∷◌ c s) (String.◌∷◌ p ps) = code c == code p && starts_with s ps

-- `p in s`
unfoldable pub contains : String → String → Bool
unfolding starts_with
contains p String.[] = str_eq p ""
contains p (String.◌∷◌ c s) = starts_with (String.◌∷◌ c s) p || contains p s
