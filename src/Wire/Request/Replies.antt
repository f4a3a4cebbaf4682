-- ===== src/Wire/Request/Replies.antt =====
-- The loop of `request` against the frames on the stream: it returns the reply to its own id and
-- nothing else, and enough fuel is the number of bytes that are there.
use claude_studio.Prelude.{
  ℕ, zero, suc, ◌+◌, ◌≤◌, ◌<◌, ◌≡◌, refl, sym, ap, ◌∙◌, subst, String, Bool, true, false, Option,
  List, [], ◌∷◌, ◌++◌, length, arith, All, ltb, le→ltb, str_append,
}
use claude_studio.Python.Json.{Json, is_text}
use claude_studio.Python.Result.{ok, timeout_error, get}
use claude_studio.Wire.Frame.{Bytes, encode_frame}
use claude_studio.Wire.Envelope.{envelope, or_empty, reply}
use claude_studio.Wire.Client.{Client, Action, ◌>>=◌, ◌>>◌, lift, raise_if, read_frame, >>=-ok}
use claude_studio.Wire.Client.Stream.{available, horizon, delays}
use claude_studio.Wire.Client.Frames.{IsFrame, read_frame-ok, read_frame-Keeps}
use claude_studio.Wire.Request.{unpacked, await_reply, send_all, request}

-- The frame's id is another one, and it is the request's.
abbrev pub IsOther : String → Json → Type 0
IsOther rid v = (x : Json) × (get "id" v ≡ ok x) × (is_text rid x ≡ false)

abbrev pub IsAnswer : String → Json → Type 0
IsAnswer rid v = (x : Json) × (get "id" v ≡ ok x) × (is_text rid x ≡ true)

module _ (unpackb : Bytes → Option Json) where
  -- The stream `s` is the frames of `vs` in order, and then `rest`.
  abbrev pub Carries : List Json → Bytes → Bytes → Type 0
  Carries [] s rest = s ≡ rest
  Carries (v ∷ vs) s rest = (mid : Bytes) × IsFrame (unpacked unpackb) v s mid × Carries vs mid rest

module _ (unpackb : Bytes → Option Json) (rid method : String) (deadline : ℕ) where
  abbrev pub choose : ℕ → Json → Bool → Action Json
  choose fuel frame mine = elim mine [
    | true ↦ lift (reply method frame)
    | false ↦ await_reply unpackb fuel rid method deadline
  ]

  abbrev pub pick : ℕ → Json → Json → Action Json
  pick fuel frame id = choose fuel frame (is_text rid id)

  abbrev pub with_id : ℕ → Json → Action Json
  with_id fuel frame = do id ← lift (get "id" frame); pick fuel frame id

  -- One round: in time, with a frame there that has an id.
  await_reply-eq :
      (fuel : ℕ) (c : Client) {v x : Json}
      → c.clock ≤ deadline
      → (read_frame (unpacked unpackb) c).0 ≡ ok v
      → get "id" v ≡ ok x
      → await_reply unpackb (suc fuel) rid method deadline c
        ≡ pick fuel v x (read_frame (unpacked unpackb) c).1
  unfolding await_reply
  await_reply-eq fuel c {v} early got id =
      let late = timeout_error (str_append "no response for " method) in
      let on_time : (raise_if (ltb deadline c.clock) late c).0 ≡ ok tt =
        rw (le→ltb _ _ early) refl in
      let read : Action Json = read_frame (unpacked unpackb) >>= with_id fuel in
      >>=-ok (λ d. raise_if (ltb deadline d.clock) late d) (λ _. read) c on_time
      ∙ >>=-ok (read_frame (unpacked unpackb)) (with_id fuel) c got
      ∙ >>=-ok (lift (get "id" v)) (pick fuel v) (read_frame (unpacked unpackb) c).1 id

  -- Frames with other ids are skipped, and the first with the request's id is the answer.
  pub await_reply-answer :
      (skipped : List Json) (v : Json) (c : Client) (rest : Bytes) (fuel : ℕ)
      → All (IsOther rid) skipped
      → IsAnswer rid v
      → Carries unpackb (skipped ++ v ∷ []) (available c) rest
      → horizon c ≤ deadline
      → length skipped < fuel
      → let out = await_reply unpackb fuel rid method deadline c in
        (out.0 ≡ reply method v) × (available out.1 ≡ rest)
  await_reply-answer skipped v c rest zero others a carried early few = absurd (omega arith)
  await_reply-answer [] v c rest (suc fuel) others (x, id, mine) (mid, f, last) early few =
      let (got, left) = read_frame-ok (unpacked unpackb) c mid f in
      let run = await_reply-eq fuel c (omega arith) got id in
      let picked : pick fuel v x (read_frame (unpacked unpackb) c).1
          ≡ (reply method v, (read_frame (unpacked unpackb) c).1) =
        ap (λ b. choose fuel v b (read_frame (unpacked unpackb) c).1) mine in
      rw (run ∙ picked) (refl, left ∙ last)
  await_reply-answer (w ∷ ws) v c rest (suc fuel) ((x, id, other), others) a (mid, f, carried) early
        few =
      let (got, left) = read_frame-ok (unpacked unpackb) c mid f in
      let d : Client = (read_frame (unpacked unpackb) c).1 in
      let run = await_reply-eq fuel c (omega arith) got id in
      let skip : pick fuel w x d ≡ await_reply unpackb fuel rid method deadline d =
        ap (λ b. choose fuel w b d) other in
      let keeps = read_frame-Keeps (unpacked unpackb) c in
      rw (run ∙ skip) (
        await_reply-answer ws v d rest fuel others a
          (subst (λ s. Carries unpackb (ws ++ v ∷ []) s rest) (sym left) carried)
          (rw (keeps.0) early) (omega arith))

-- If the envelope can be encoded, the stream carries any frames with other ids and then one with
-- the request's id, all delays together are within the timeout and the fuel exceeds the number of
-- skipped frames, then request returns what that frame says (its payload, or the remote error) and
-- the stream stands behind it.
pub request-answer :
    (packb : Json → Bytes) (unpackb : Bytes → Option Json) (fuel : ℕ) (rid method : String)
    (payload : Option Json) (c : Client) {frame : Bytes} (skipped : List Json) (v : Json)
    (rest : Bytes)
    → encode_frame packb (envelope rid method (or_empty payload)) ≡ ok frame
    → All (IsOther rid) skipped
    → IsAnswer rid v
    → Carries unpackb (skipped ++ v ∷ []) (available c) rest
    → delays c.inbox ≤ c.timeout
    → length skipped < fuel
    → let out = request packb unpackb fuel rid method payload c in
      (out.0 ≡ reply method v) × (available out.1 ≡ rest)
unfolding request
request-answer packb unpackb fuel rid method payload c {frame} skipped v rest sent others a carried
      early fuel_ok =
    let env = envelope rid method (or_empty payload) in
    let go : Action Json = λ d. await_reply unpackb fuel rid method (d.clock + d.timeout) d in
    let start = >>=-ok (lift (encode_frame packb env)) (λ f. send_all f >> go) c sent in
    rw start (
      await_reply-answer unpackb rid method (c.clock + c.timeout) skipped v
        (record c { sent = c.sent ++ frame }) rest fuel others a carried (omega arith) fuel_ok)
