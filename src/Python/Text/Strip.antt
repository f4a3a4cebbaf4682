-- ===== src/Python/Text/Strip.antt =====
-- How the two ends of `str.strip` act together.
use claude_studio.Prelude.{
  ◌≡◌, refl, ap, ◌∙◌, String, Char, true, not, ◌||◌, inl, inr, Bool-cases, arith, if◌then◌else◌,
}
use claude_studio.Python.Text.{strip, lstrip, rstrip, put, is_space, has_visible}

lstrip-put : (c : Char) (r : String) → lstrip (put c r) ≡ (if is_space c then lstrip r else put c r)
unfolding lstrip
lstrip-put c String.[] = elim (Bool-cases (is_space c)) [
  | inl e ↦ rw e refl
  | inr e ↦ rw e (rw e refl)
]
lstrip-put c (String.◌∷◌ d r) = ground arith

rstrip-put : (c : Char) (r : String) → rstrip r ≡ r → rstrip (put c r) ≡ put c r
unfolding rstrip
rstrip-put c String.[] h = elim (Bool-cases (is_space c)) [
  | inl e ↦ rw e refl
  | inr e ↦ rw e (rw e refl)
]
rstrip-put c (String.◌∷◌ d r) h = ap (put c) h

has_visible-put :
    (c : Char) (r : String) → has_visible (put c r) ≡ (not (is_space c) || has_visible r)
has_visible-put c String.[] = elim (Bool-cases (is_space c)) [
  | inl e ↦ rw e refl
  | inr e ↦ rw e (rw e refl)
]
has_visible-put c (String.◌∷◌ d r) = refl

lstrip-rstrip : (s : String) → lstrip (rstrip s) ≡ rstrip (lstrip s)
unfolding lstrip rstrip
lstrip-rstrip String.[] = refl
lstrip-rstrip (String.◌∷◌ c s) = ground (arith, lstrip-rstrip s, lstrip-put c (rstrip s))

rstrip_idem : (s : String) → rstrip (rstrip s) ≡ rstrip s
unfolding rstrip
rstrip_idem String.[] = refl
rstrip_idem (String.◌∷◌ c s) = rstrip-put c (rstrip s) (rstrip_idem s)

lstrip_idem : (s : String) → lstrip (lstrip s) ≡ lstrip s
unfolding lstrip
lstrip_idem String.[] = refl
lstrip_idem (String.◌∷◌ c s) = ground (arith, lstrip_idem s)

pub strip-rstrip : (s : String) → strip (rstrip s) ≡ strip s
unfolding strip
strip-rstrip s = ap rstrip (lstrip-rstrip s) ∙ rstrip_idem (lstrip s)

pub strip-lstrip : (s : String) → strip (lstrip s) ≡ strip s
unfolding strip
strip-lstrip s = ap rstrip (lstrip_idem s)

pub has_visible-lstrip : (s : String) → has_visible (lstrip s) ≡ has_visible s
unfolding lstrip
has_visible-lstrip String.[] = refl
has_visible-lstrip (String.◌∷◌ c s) = ground (arith, has_visible-lstrip s)

pub has_visible-rstrip : (s : String) → has_visible (rstrip s) ≡ has_visible s
unfolding rstrip
has_visible-rstrip String.[] = refl
has_visible-rstrip (String.◌∷◌ c s) = has_visible-put c (rstrip s) ∙ rw (has_visible-rstrip s) refl

pub put-visible : (c : Char) (r : String) → has_visible r ≡ true → put c r ≡ String.◌∷◌ c r
put-visible c String.[] v = cc
put-visible c (String.◌∷◌ d r) v = refl
