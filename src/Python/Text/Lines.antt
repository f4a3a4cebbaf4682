-- ===== src/Python/Text/Lines.antt =====
-- `str.splitlines`, and what `print` writes of the texts that it is called on.
use claude_studio.Prelude.{
  ◌≡◌, refl, ap, ◌∙◌, String, Char, code, Bool, true, false, ◌||◌, ◌&&◌, leb, ◌==◌, List, [], ◌∷◌,
  ◌++◌, ◌⊎◌, inl, inr, Bool-cases, arith, if◌then◌else◌,
}
use claude_studio.Python.Text.Strip.{
  strip-rstrip, strip-lstrip, has_visible-lstrip, has_visible-rstrip, put-visible,
}
use claude_studio.Python.Text.{strip, lstrip, rstrip, put, is_space, has_visible}

-- The characters at which `splitlines` cuts.
abbrev pub is_break : Char → Bool
is_break ch =
    let c = code ch in
    (leb 10 c && leb c 13) || (leb 28 c && leb c 30) || c == 0x85 || c == 0x2028 || c == 0x2029

abbrev pub has_break : String → Bool
has_break String.[] = false
has_break (String.◌∷◌ c s) = is_break c || has_break s

-- One character in front of the first line.
abbrev put_first : Char → List String → List String
put_first c [] = String.◌∷◌ c "" ∷ []
put_first c (l ∷ ls) = String.◌∷◌ c l ∷ ls

-- `s.splitlines()`, where the text has no `\r\n`: reading the output of a process in text mode has
-- made each of them one `\n`.
unfoldable pub splitlines : String → List String
splitlines String.[] = []
splitlines (String.◌∷◌ c s) =
    let rest = splitlines s in if is_break c then "" ∷ rest else put_first c rest

-- A text, the end of its line, and what is written behind it.
abbrev pub line_then : String → String → String
line_then String.[] rest = String.◌∷◌ "\n" rest
line_then (String.◌∷◌ c t) rest = String.◌∷◌ c (line_then t rest)

abbrev pub lines_then : List String → String → String
lines_then [] rest = rest
lines_then (t ∷ ts) rest = line_then t (lines_then ts rest)

-- What `print(t)` writes, for each of the texts in their order. A `\r` in a text stays, where reading
-- in text mode makes it a `\n`: `splitlines` cuts at both.
abbrev pub stdout_of : List String → String
stdout_of texts = lines_then texts ""

stdout_of-append :
    (texts : List String) (l : String)
    → stdout_of (texts ++ l ∷ []) ≡ lines_then texts (line_then l "")
stdout_of-append [] l = refl
stdout_of-append (t ∷ ts) l = rw (stdout_of-append ts l) refl

has_break-put :
    (c : Char) (r : String) → (is_break c || has_break r) ≡ false → has_break (put c r) ≡ false
has_break-put c String.[] h = elim (Bool-cases (is_space c)) [ inl e ↦ rw e refl | inr e ↦ rw e h ]
has_break-put c (String.◌∷◌ d r) h = h

has_break-lstrip : (s : String) → has_break s ≡ false → has_break (lstrip s) ≡ false
unfolding lstrip
has_break-lstrip String.[] h = refl
has_break-lstrip (String.◌∷◌ c s) h = ground (arith, has_break-lstrip s)

has_break-rstrip : (s : String) → has_break s ≡ false → has_break (rstrip s) ≡ false
unfolding rstrip
has_break-rstrip String.[] h = refl
has_break-rstrip (String.◌∷◌ c s) h =
    has_break-put c (rstrip s) (ground (arith, has_break-rstrip s))

lstrip-line_then :
    (t rest : String)
    → lstrip (line_then t rest) ≡ (if has_visible t then line_then (lstrip t) rest else lstrip rest)
unfolding lstrip
lstrip-line_then String.[] rest = refl
lstrip-line_then (String.◌∷◌ c t) rest = ground (arith, lstrip-line_then t rest)

rstrip-line : (t : String) → rstrip (line_then t "") ≡ rstrip t
unfolding rstrip
rstrip-line String.[] = refl
rstrip-line (String.◌∷◌ c t) = rw (rstrip-line t) refl

put-line_then : (c : Char) (t r : String) → put c (line_then t r) ≡ String.◌∷◌ c (line_then t r)
put-line_then c String.[] r = refl
put-line_then c (String.◌∷◌ d t) r = refl

rstrip-line_then :
    (t rest : String)
    → has_visible rest ≡ true
    → rstrip (line_then t rest) ≡ line_then t (rstrip rest)
unfolding rstrip
rstrip-line_then String.[] rest v = put-visible "\n" (rstrip rest) (has_visible-rstrip rest ∙ v)
rstrip-line_then (String.◌∷◌ c t) rest v =
    ap (put c) (rstrip-line_then t rest v) ∙ put-line_then c t (rstrip rest)

has_visible-line_then :
    (t rest : String) → has_visible (line_then t rest) ≡ (has_visible t || has_visible rest)
has_visible-line_then String.[] rest = refl
has_visible-line_then (String.◌∷◌ c t) rest = ground (arith, has_visible-line_then t rest)

has_visible-stdout_of :
    (texts : List String) (l : String)
    → has_visible l ≡ true
    → has_visible (stdout_of (texts ++ l ∷ [])) ≡ true
has_visible-stdout_of [] l v = has_visible-line_then l "" ∙ rw v refl
has_visible-stdout_of (t ∷ ts) l v =
    ground (arith, has_visible-line_then t (stdout_of (ts ++ l ∷ [])), has_visible-stdout_of ts l v)

rstrip-stdout_of :
    (texts : List String) (l : String)
    → has_visible l ≡ true
    → rstrip (stdout_of (texts ++ l ∷ [])) ≡ lines_then texts (rstrip l)
rstrip-stdout_of [] l v = rstrip-line l
rstrip-stdout_of (t ∷ ts) l v =
    rstrip-line_then t (stdout_of (ts ++ l ∷ [])) (has_visible-stdout_of ts l v)
    ∙ ap (line_then t) (rstrip-stdout_of ts l v)

-- Cutting the spaces at the front drops or cuts texts, and leaves the last one but for its spaces.
lstrip-stdout_of :
    (texts : List String) (l : String)
    → has_visible l ≡ true
    → (texts' : List String) × (l' : String) × (lstrip (stdout_of (texts ++ l ∷ []))
        ≡ stdout_of (texts' ++ l' ∷ []))
      × ((l' ≡ l) ⊎ (l' ≡ lstrip l))
lstrip-stdout_of [] l v = ([], lstrip l, lstrip-line_then l "" ∙ rw v refl, inr refl)
lstrip-stdout_of (t ∷ ts) l v =
    let rest = stdout_of (ts ++ l ∷ []) in
    let cut = lstrip-line_then t rest in
    elim (Bool-cases (has_visible t)) [
      | inl e ↦ (lstrip t ∷ ts, l, cut ∙ rw e refl, inl refl)
      | inr e ↦
          let (ts', l', same, last) = lstrip-stdout_of ts l v in (ts', l', cut ∙ rw e same, last)
    ]

-- A text without a break is one line.
splitlines-one :
    (c : Char) (s : String)
    → has_break (String.◌∷◌ c s) ≡ false
    → splitlines (String.◌∷◌ c s) ≡ String.◌∷◌ c s ∷ []
unfolding splitlines
splitlines-one c String.[] h = ground arith
splitlines-one c (String.◌∷◌ d s) h = ground (arith, splitlines-one d s)

-- `m` is the last line of the text.
abbrev EndsIn : String → String → Type 0
EndsIn m s = (front : List String) × (splitlines s ≡ front ++ m ∷ [])

EndsIn-line_then :
    (m t rest : String)
    → EndsIn m rest
    → (l : String) × (front : List String) × (splitlines (line_then t rest) ≡ (l ∷ front) ++ m ∷ [])
unfolding splitlines
EndsIn-line_then m String.[] rest (front, h) = ("", front, ap (λ ls. "" ∷ ls) h)
EndsIn-line_then m (String.◌∷◌ c t) rest h =
    let (l, front, h') = EndsIn-line_then m t rest h in
    elim (Bool-cases (is_break c)) [
      | inl e ↦ ("", l ∷ front, rw (e, h') refl)
      | inr e ↦ (String.◌∷◌ c l, front, rw (e, h') refl)
    ]

EndsIn-lines_then :
    (m : String) (texts : List String) (rest : String)
    → EndsIn m rest
    → EndsIn m (lines_then texts rest)
EndsIn-lines_then m [] rest h = h
EndsIn-lines_then m (t ∷ ts) rest h =
    let (l, front, h') =
      EndsIn-line_then m t (lines_then ts rest) (EndsIn-lines_then m ts rest h) in
    (l ∷ front, h')

EndsIn-rstrip :
    (l : String) → has_visible l ≡ true → has_break l ≡ false → EndsIn (rstrip l) (rstrip l)
EndsIn-rstrip l v h = ends (rstrip l) (has_visible-rstrip l ∙ v) (has_break-rstrip l h)
  where
    ends : (m : String) → has_visible m ≡ true → has_break m ≡ false → EndsIn m m
    ends String.[] v h = cc
    ends (String.◌∷◌ c m) v h = ([], splitlines-one c m h)

EndsIn-stripped :
    (s : String) (texts : List String) (l : String)
    → has_visible l ≡ true
    → has_break l ≡ false
    → lstrip s ≡ stdout_of (texts ++ l ∷ [])
    → EndsIn (rstrip l) (strip s)
unfolding strip
EndsIn-stripped s texts l v h cut =
    let (front, ends) = EndsIn-lines_then (rstrip l) texts (rstrip l) (EndsIn-rstrip l v h) in
    (front, ap splitlines (ap rstrip cut ∙ rstrip-stdout_of texts l v) ∙ ends)

-- The lines of a stripped output end with what was printed last, if that is one line that is not
-- blank, but for the spaces around it.
pub splitlines-stdout_of :
    (texts : List String) (l : String)
    → has_visible l ≡ true
    → has_break l ≡ false
    → (front : List String) × (m : String) × (splitlines (strip (stdout_of (texts ++ l ∷ [])))
        ≡ front ++ m ∷ [])
      × (strip m ≡ strip l)
splitlines-stdout_of texts l v h =
    let (texts', l', cut, last) = lstrip-stdout_of texts l v in
    let done = EndsIn-stripped (stdout_of (texts ++ l ∷ [])) texts' l' in
    elim last [
      | inl e ↦
          let (front, ends) = done (rw e v) (rw e h) cut in
          (front, rstrip l', ends, strip-rstrip l' ∙ ap strip e)
      | inr e ↦
          let (front, ends) =
            done (rw e (has_visible-lstrip l ∙ v)) (rw e (has_break-lstrip l h)) cut in
          (front, rstrip l', ends, strip-rstrip l' ∙ ap strip e ∙ strip-lstrip l)
    ]
