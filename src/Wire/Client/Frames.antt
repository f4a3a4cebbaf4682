-- ===== src/Wire/Client/Frames.antt =====
-- `_read_frame` reads back what `encode_frame` wrote, one frame at a time, and what it does with a
-- stream that breaks off or announces too much.
use claude_studio.Prelude.{
  ℕ, ◌+◌, ◌≤◌, ◌<◌, ◌≡◌, refl, sym, ap, ◌∙◌, ◌++◌, length, take, drop, arith, length-append,
  take-append, drop-append, ltb, le→ltb, lt→ltb, Bool-cases, inl, inr, ltb→le, take-append-drop,
  length-take_le,
}
use claude_studio.Python.Json.{Json}
use claude_studio.Python.Result.{Result, ok, err, value_error, err-ne-ok, ok-injective}
use claude_studio.Wire.Frame.{Bytes, max_frame, unpack_u32}
use claude_studio.Wire.Client.{
  Action, Client, read_exactly, read_body, read_frame, lift, >>=-ok, >>=-inv, >>=-keeps, ◌>>=◌,
}
use claude_studio.Wire.Client.Stream.{
  available, Keeps, read_exactly-ok, read_exactly-inv, read_exactly-Keeps, Keeps-trans,
}

-- The stream `s` begins with a frame of the value `v`, and `rest` follows it.
pub record IsFrame (unpackb : Bytes → Result Json) (v : Json) (s rest : Bytes) : Type 0 where
  pub header : Bytes
  pub body : Bytes
  pub four : length header ≡ 4
  pub size : unpack_u32 header ≡ ok (length body)
  pub fits : length body ≤ max_frame
  pub decoded : unpackb body ≡ ok v
  pub stream : s ≡ header ++ (body ++ rest)

module _ (unpackb : Bytes → Result Json) where
  -- The header and the body, one after the other.
  read_frame-eq :
      (c : Client) (size : ℕ)
      → 4 ≤ length (available c)
      → unpack_u32 (take 4 (available c)) ≡ ok size
      → read_frame unpackb c ≡ read_body unpackb size (read_exactly 4 c).1
  unfolding read_frame
  read_frame-eq c size h e =
      let (p, q) = read_exactly-ok 4 c h in
      >>=-ok (read_exactly 4)
        (λ header. do size' ← lift (unpack_u32 header); read_body unpackb size') c p
      ∙ >>=-ok (lift (unpack_u32 (take 4 (available c)))) (read_body unpackb) (read_exactly 4 c).1 e

  read_body-ok :
      (c : Client) (b rest : Bytes) {v : Json}
      → length b ≤ max_frame
      → available c ≡ b ++ rest
      → unpackb b ≡ ok v
      → ((read_body unpackb (length b) c).0 ≡ ok v)
        × (available (read_body unpackb (length b) c).1 ≡ rest)
  unfolding read_body
  read_body-ok c b rest {v} small e u =
      let fits : length b ≤ length (available c) = rw (e, length-append b rest) (omega arith) in
      let (p, q) = read_exactly-ok (length b) c fits in
      let got : (read_exactly (length b) c).0 ≡ ok b =
        p ∙ ap (λ s. ok (take (length b) s)) e ∙ ap ok (take-append (length b) b rest refl) in
      rw (le→ltb _ _ small, >>=-ok (read_exactly (length b)) (λ x. lift (unpackb x)) c got)
        (u, q ∙ ap (drop (length b)) e ∙ drop-append (length b) b rest refl)

  -- A complete frame at the front of the stream: its body is decoded, the rest stays.
  pub read_frame-ok :
      {v : Json} (c : Client) (rest : Bytes)
      → IsFrame unpackb v (available c) rest
      → ((read_frame unpackb c).0 ≡ ok v) × (available (read_frame unpackb c).1 ≡ rest)
  read_frame-ok c rest f =
      let whole = f.header ++ (f.body ++ rest) in
      let h : 4 ≤ length (available c) =
        rw (f.stream, length-append f.header (f.body ++ rest), f.four) (omega arith) in
      let four : take 4 (available c) ≡ f.header =
        ap (take 4) f.stream ∙ take-append 4 f.header (f.body ++ rest) f.four in
      let left : available (read_exactly 4 c).1 ≡ f.body ++ rest =
        (read_exactly-ok 4 c h).1 ∙ ap (drop 4) f.stream ∙ drop-append 4 f.header _ f.four in
      rw (read_frame-eq c (length f.body) h (ap unpack_u32 four ∙ f.size))
        (read_body-ok (read_exactly 4 c).1 f.body rest f.fits left f.decoded)

  -- A header that announces more than the limit of a frame is refused with a value error, and only
  -- its four bytes are taken off the stream.
  pub read_frame_large :
      (c : Client) (size : ℕ)
      → 4 ≤ length (available c)
      → unpack_u32 (take 4 (available c)) ≡ ok size
      → max_frame < size
      → ((read_frame unpackb c).0 ≡ err (value_error "frame too large"))
        × (available (read_frame unpackb c).1 ≡ drop 4 (available c))
  unfolding read_body
  read_frame_large c size h e large =
      rw (read_frame-eq c size h e, lt→ltb max_frame size large) (refl, (read_exactly-ok 4 c h).1)

  read_body-Keeps : (size : ℕ) (c : Client) → Keeps c (read_body unpackb size c).1
  unfolding read_body
  read_body-Keeps size c = elim (Bool-cases (ltb max_frame size)) [
    | inl large ↦ rw large (refl, refl, refl)
    | inr small ↦ rw small (
        >>=-keeps (read_exactly size) (λ x. lift (unpackb x)) c (Keeps c) (λ _ d h. h)
          (read_exactly-Keeps size c))
  ]

  pub read_frame-Keeps : (c : Client) → Keeps c (read_frame unpackb c).1
  unfolding read_frame
  read_frame-Keeps c =
      >>=-keeps (read_exactly 4) decode c (Keeps c)
        (λ header d h.
          >>=-keeps (lift (unpack_u32 header)) (read_body unpackb) d (Keeps c)
            (λ size d' h'.
              Keeps-trans c d' (read_body unpackb size d').1 h' (read_body-Keeps size d'))
            h)
        (read_exactly-Keeps 4 c)
    where
      decode : Bytes → Action Json
      decode header = do size ← lift (unpack_u32 header); read_body unpackb size

  -- The body that a successful read has taken.
  read_body-inv :
      (size : ℕ) (c : Client) {v : Json}
      → (read_body unpackb size c).0 ≡ ok v
      → (size ≤ max_frame)
        × (size ≤ length (available c))
        × (unpackb (take size (available c)) ≡ ok v)
        × (available (read_body unpackb size c).1 ≡ drop size (available c))
  unfolding read_body
  read_body-inv size c {v} h = elim (Bool-cases (ltb max_frame size)) [
    | inl large ↦
        let bad : err (value_error "frame too large") ≡ ok v = rw large at h in
        absurd (err-ne-ok bad)
    | inr small ↦
        let then_read : Action Json = (do x ← read_exactly size; lift (unpackb x)) in
        let h' : (then_read c).0 ≡ ok v = rw small at h in
        let (b, got, same) = >>=-inv (read_exactly size) (λ x. lift (unpackb x)) c h' in
        let (fits, left) = read_exactly-inv size c got in
        let b-eq : b ≡ take size (available c) =
          ok-injective (sym got ∙ (read_exactly-ok size c fits).0) in
        rw (small, same)
          (ltb→le _ _ small, fits, ap unpackb (sym b-eq) ∙ sym (ap (λ o. o.0) same) ∙ h', left)
  ]

  -- Whatever `_read_frame` returns stood as a frame at the front of the stream, and exactly that
  -- frame is gone.
  pub read_frame-IsFrame :
      (c : Client) {v : Json}
      → (read_frame unpackb c).0 ≡ ok v
      → IsFrame unpackb v (available c) (available (read_frame unpackb c).1)
  unfolding read_frame
  read_frame-IsFrame c {v} h =
      let decode : Bytes → Action Json =
        λ header. (do size ← lift (unpack_u32 header); read_body unpackb size) in
      let (b, got, same) = >>=-inv (read_exactly 4) decode c h in
      let (there, left) = read_exactly-inv 4 c got in
      let d : Client = (read_exactly 4 c).1 in
      let s : Bytes = available c in
      let b-eq : b ≡ take 4 s = ok-injective (sym got ∙ (read_exactly-ok 4 c there).0) in
      let h' : (decode b d).0 ≡ ok v = sym (ap (λ o. o.0) same) ∙ h in
      let (size, announced, same') = >>=-inv (lift (unpack_u32 b)) (read_body unpackb) d h' in
      let h'' : (read_body unpackb size d).0 ≡ ok v = sym (ap (λ o. o.0) same') ∙ h' in
      let (small, fits, decoded, left') = read_body-inv size d h'' in
      let n : length (take size (drop 4 s)) ≡ size =
        length-take_le size (drop 4 s) (rw left at fits) in
      record {
        header = take 4 s;
        body = take size (drop 4 s);
        four = length-take_le 4 s there;
        size = ap unpack_u32 (sym b-eq) ∙ announced ∙ ap ok (sym n);
        fits = rw n small;
        decoded = rw left at decoded;
        stream =
            sym (take-append-drop 4 s)
            ∙ ap (λ t. take 4 s ++ t)
                (sym (take-append-drop size (drop 4 s))
                  ∙ ap (λ t. take size (drop 4 s) ++ t)
                      (sym (ap (λ o. available o.1) (same ∙ same') ∙ left' ∙ ap (drop size) left)));
      }

-- A frame takes at least its header off the stream.
pub IsFrame-shrinks :
    {unpackb : Bytes → Result Json} {v : Json} {s rest : Bytes}
    → IsFrame unpackb v s rest
    → length rest + 4 ≤ length s
IsFrame-shrinks {rest} f =
    rw (f.stream, length-append f.header (f.body ++ rest), f.four, length-append f.body rest)
      (omega arith)
