-- ===== src/Wire/Client/Stream.antt =====
-- `_read_exactly` and `_read_frame` against the bytes that arrive: how they are cut into chunks
-- makes no difference.
use claude_studio.Prelude.{
  ℕ, ◌+◌, ◌≤◌, ◌<◌, ◌≡◌, refl, sym, ap, ◌∙◌, List, [], ◌∷◌, ◌++◌, length, take, drop, arith,
  append_assoc, append-nil, length-append, take-append_le, drop-append_le, ltb, Bool-cases, inl,
  inr, ltb→le, ltb→lt, le→ltb, lt→ltb,
}
use claude_studio.Python.Result.{ok, err, Exception, connection_error, timeout_error, err-ne-ok}
use claude_studio.Wire.Frame.{Bytes}
use claude_studio.Wire.Client.{
  Recv, chunk, silence, Client, fill, split, read_exactly, >>=-ok, >>=-err, >>=-keeps,
}

-- The bytes that arrive before the peer closes or the socket times out.
abbrev pub arrives : List Recv → Bytes
arrives [] = []
arrives (silence d ∷ es) = []
arrives (chunk d [] ∷ es) = []
arrives (chunk d (b ∷ bs) ∷ es) = b ∷ (bs ++ arrives es)

abbrev pub available : Client → Bytes
available c = c.buf ++ arrives c.inbox

-- The delays of all calls to come.
abbrev pub delays : List Recv → ℕ
delays [] = 0
delays (silence d ∷ es) = d + delays es
delays (chunk d bs ∷ es) = d + delays es

-- The reading of the clock when the input is used up.
abbrev pub horizon : Client → ℕ
horizon c = c.clock + delays c.inbox

pub fill-ok :
    (n : ℕ) (c : Client) (es : List Recv)
    → n ≤ length (c.buf ++ arrives es)
    → ((fill n c es).0 ≡ ok tt)
      × (available (fill n c es).1 ≡ c.buf ++ arrives es)
      × (n ≤ length (fill n c es).1.buf)
unfolding fill
fill-ok n c [] h =
    let h' : n ≤ length c.buf = rw append-nil at h in
    rw (le→ltb n (length c.buf) h') (refl, refl, h')
fill-ok n c (silence d ∷ es) h =
    let h' : n ≤ length c.buf = rw append-nil at h in
    rw (le→ltb n (length c.buf) h') (refl, refl, h')
fill-ok n c (chunk d [] ∷ es) h =
    let h' : n ≤ length c.buf = rw append-nil at h in
    rw (le→ltb n (length c.buf) h') (refl, refl, h')
fill-ok n c (chunk d (b ∷ bs) ∷ es) h = elim (Bool-cases (ltb (length c.buf) n)) [
  | inl more ↦
      let c' : Client = record c { buf = c.buf ++ b ∷ bs; clock = c.clock + d } in
      let e : c'.buf ++ arrives es ≡ c.buf ++ (b ∷ (bs ++ arrives es)) =
        append_assoc c.buf (b ∷ bs) (arrives es) in
      let (p, q, r) = fill-ok n c' es (rw e h) in rw more (p, q ∙ e, r)
  | inr enough ↦ rw enough (refl, refl, ltb→le n (length c.buf) enough)
]

-- The exceptions of a stream that ends too early.
pub data IsLost : Exception → Type 0 where
  closed : IsLost (connection_error "core closed connection")
  timed_out : IsLost (timeout_error "timed out")

pub fill_short :
    (n : ℕ) (c : Client) (es : List Recv)
    → length (c.buf ++ arrives es) < n
    → (e : Exception) × IsLost e
      × ((fill n c es).0 ≡ err e)
      × ((fill n c es).1.buf ≡ c.buf ++ arrives es)
unfolding fill
fill_short n c [] h =
    let h' : length c.buf < n = rw append-nil at h in
    rw (lt→ltb (length c.buf) n h') (_, closed, refl, sym (append-nil _))
fill_short n c (silence d ∷ es) h =
    let h' : length c.buf < n = rw append-nil at h in
    rw (lt→ltb (length c.buf) n h') (_, timed_out, refl, sym (append-nil _))
fill_short n c (chunk d [] ∷ es) h =
    let h' : length c.buf < n = rw append-nil at h in
    rw (lt→ltb (length c.buf) n h') (_, closed, refl, sym (append-nil _))
fill_short n c (chunk d (b ∷ bs) ∷ es) h =
    let c' : Client = record c { buf = c.buf ++ b ∷ bs; clock = c.clock + d } in
    let e : c'.buf ++ arrives es ≡ c.buf ++ (b ∷ (bs ++ arrives es)) =
      append_assoc c.buf (b ∷ bs) (arrives es) in
    let less : length c.buf < n = omega (arith, length-append {0} c.buf (b ∷ (bs ++ arrives es))) in
    let (x, lost, p, q) = fill_short n c' es (rw e h) in
    rw (lt→ltb (length c.buf) n less) (x, lost, p, q ∙ e)

-- Waiting passes time on from the input to the clock; nothing else of the client changes.
pub fill-keeps :
    (n : ℕ) (c : Client) (es : List Recv)
    → (horizon (fill n c es).1 ≡ c.clock + delays es)
      × ((fill n c es).1.sent ≡ c.sent)
      × ((fill n c es).1.timeout ≡ c.timeout)
unfolding fill
fill-keeps n c [] = elim (Bool-cases (ltb (length c.buf) n)) [
  | inl more ↦ rw more (refl, refl, refl)
  | inr enough ↦ rw enough (refl, refl, refl)
]
fill-keeps n c (silence d ∷ es) = elim (Bool-cases (ltb (length c.buf) n)) [
  | inl more ↦ rw more (omega arith, refl, refl)
  | inr enough ↦ rw enough (refl, refl, refl)
]
fill-keeps n c (chunk d [] ∷ es) = elim (Bool-cases (ltb (length c.buf) n)) [
  | inl more ↦ rw more (omega arith, refl, refl)
  | inr enough ↦ rw enough (refl, refl, refl)
]
fill-keeps n c (chunk d (b ∷ bs) ∷ es) = elim (Bool-cases (ltb (length c.buf) n)) [
  | inl more ↦
      let c' : Client = record c { buf = c.buf ++ b ∷ bs; clock = c.clock + d } in
      let (p, q, r) = fill-keeps n c' es in rw more (p ∙ omega arith, q, r)
  | inr enough ↦ rw enough (refl, refl, refl)
]

-- If at least n bytes are buffered or arrive before a close or a timeout, _read_exactly(n) returns
-- the first n of them and leaves the others, however they are cut into chunks.
pub read_exactly-ok :
    (n : ℕ) (c : Client)
    → n ≤ length (available c)
    → ((read_exactly n c).0 ≡ ok (take n (available c)))
      × (available (read_exactly n c).1 ≡ drop n (available c))
unfolding read_exactly split
read_exactly-ok n c h =
    let (p, q, r) = fill-ok n c c.inbox h in
    rw (>>=-ok (λ d. fill n d d.inbox) (λ _. split n) c p, ← q)
      (ap ok (sym (take-append_le n _ _ r)), sym (drop-append_le n _ _ r))

-- If fewer than n bytes are buffered or arrive before a close or a timeout, _read_exactly(n) raises
-- the connection or the timeout error, and all that arrived stays in the buffer.
pub read_exactly_short :
    (n : ℕ) (c : Client)
    → length (available c) < n
    → (e : Exception) × IsLost e
      × ((read_exactly n c).0 ≡ err e)
      × ((read_exactly n c).1.buf ≡ available c)
unfolding read_exactly split
read_exactly_short n c h =
    let (e, lost, p, q) = fill_short n c c.inbox h in
    let run = >>=-err (λ d. fill n d d.inbox) (λ _. split n) c p in
    (e, lost, ap (λ o. o.0) run, ap (λ o. o.1.buf) run ∙ q)

-- A read that returns has taken its bytes from the stream.
pub read_exactly-inv :
    (n : ℕ) (c : Client) {b : Bytes}
    → (read_exactly n c).0 ≡ ok b
    → (n ≤ length (available c)) × (available (read_exactly n c).1 ≡ drop n (available c))
read_exactly-inv n c {b} h = elim (Bool-cases (ltb (length (available c)) n)) [
  | inl less ↦
      let (e, _, p, _) = read_exactly_short n c (ltb→lt _ _ less) in
      let bad : err e ≡ ok b = sym p ∙ h in absurd (err-ne-ok bad)
  | inr enough ↦
      let there = ltb→le n (length (available c)) enough in (there, (read_exactly-ok n c there).1)
]

-- What reading does not touch: the horizon, the bytes that were sent and the timeout.
abbrev pub Keeps : Client → Client → Type 0
Keeps c d = (horizon d ≡ horizon c) × (d.sent ≡ c.sent) × (d.timeout ≡ c.timeout)

pub Keeps-trans : (c d e : Client) → Keeps c d → Keeps d e → Keeps c e
Keeps-trans c d e (p, q, r) (p', q', r') = (p' ∙ p, q' ∙ q, r' ∙ r)

pub read_exactly-Keeps : (n : ℕ) (c : Client) → Keeps c (read_exactly n c).1
unfolding read_exactly split
read_exactly-Keeps n c =
    >>=-keeps (λ d. fill n d d.inbox) (λ _. split n) c (Keeps c) (λ _ d h. h)
      (fill-keeps n c c.inbox)
