-- ===== src/Wire/Request/Sound.antt =====
-- What `request` returns was said by the frame that carries its id, and the loop ends.
use claude_studio.Prelude.{
  ℕ, zero, suc, ◌≡◌, refl, sym, ap, ◌∙◌, subst, String, Option, List, [], ◌∷◌, ◌++◌, All, ltb,
  str_append, inl, inr, Bool-cases,
}
use claude_studio.Python.Json.{Json, is_text}
use claude_studio.Python.Result.{ok, err, timeout_error, out_of_fuel, get, err-ne-ok}
use claude_studio.Wire.Frame.{Bytes}
use claude_studio.Wire.Envelope.{reply}
use claude_studio.Wire.Client.{Client, Action, ◌>>=◌, lift, raise_if, read_frame, >>=-inv}
use claude_studio.Wire.Client.Stream.{available}
use claude_studio.Wire.Client.Frames.{IsFrame, read_frame-IsFrame}
use claude_studio.Wire.Request.{unpacked, await_reply}
use claude_studio.Wire.Request.Replies.{IsOther, IsAnswer, Carries, choose, pick, with_id}

module _ (unpackb : Bytes → Option Json) (rid method : String) (deadline : ℕ) where
  -- What stood on the stream when the loop returned `p` and left `rest`.
  pub record IsAnswered (p : Json) (s rest : Bytes) : Type 0 where
    pub skipped : List Json
    pub answer : Json
    pub others : All (IsOther rid) skipped
    pub mine : IsAnswer rid answer
    pub carried : Carries unpackb (skipped ++ answer ∷ []) s rest
    pub said : reply method answer ≡ ok p

  await_reply-zero :
      (c : Client) → (await_reply unpackb zero rid method deadline c).0 ≡ err out_of_fuel
  unfolding await_reply
  await_reply-zero c = refl

  -- A round that returns has read a frame with an id, and goes on by that id.
  await_reply-inv :
      (fuel : ℕ) (c : Client) {p : Json}
      → (await_reply unpackb (suc fuel) rid method deadline c).0 ≡ ok p
      → let d = (read_frame (unpacked unpackb) c).1 in
        (v x : Json) × IsFrame (unpacked unpackb) v (available c) (available d)
        × (get "id" v ≡ ok x)
        × (await_reply unpackb (suc fuel) rid method deadline c
            ≡ pick unpackb rid method deadline fuel v x d)
  unfolding await_reply
  await_reply-inv fuel c h =
      let late : Action (Unit {0}) = λ d.
        raise_if (ltb deadline d.clock) (timeout_error (str_append "no response for " method)) d in
      let read : Action Json = read_frame (unpacked unpackb) in
      let go : Json → Action Json = with_id unpackb rid method deadline fuel in
      let (_, _, same) = >>=-inv late (λ _. read >>= go) c h in
      let h1 = sym (ap (λ o. o.0) same) ∙ h in
      let (v, got, same1) = >>=-inv read go c h1 in
      let h2 = sym (ap (λ o. o.0) same1) ∙ h1 in
      let (x, id, same2) =
        >>=-inv (lift (get "id" v)) (pick unpackb rid method deadline fuel v) (read c).1 h2 in
      (v, x, read_frame-IsFrame (unpacked unpackb) c got, id, same ∙ same1 ∙ same2)

  -- A returned payload is the reply in the first frame with the request's id; before it stood
  -- frames with other ids only, and exactly these frames are off the stream.
  pub await_reply-IsAnswered :
      (fuel : ℕ) (c : Client) {p : Json}
      → (await_reply unpackb fuel rid method deadline c).0 ≡ ok p
      → IsAnswered p (available c) (available (await_reply unpackb fuel rid method deadline c).1)
  await_reply-IsAnswered zero c {p} h =
      let bad : err out_of_fuel ≡ ok p = sym (await_reply-zero c) ∙ h in absurd (err-ne-ok bad)
  await_reply-IsAnswered (suc fuel) c {p} h =
      let (v, x, f, id, run) = await_reply-inv fuel c h in
      let d : Client = (read_frame (unpacked unpackb) c).1 in
      elim (Bool-cases (is_text rid x)) [
        | inl mine ↦
            let picked = run ∙ ap (λ b. choose unpackb rid method deadline fuel v b d) mine in
            record {
              skipped = [];
              answer = v;
              others = tt;
              mine = (x, id, mine);
              carried = (available d, f, sym (ap (λ o. available o.1) picked));
              said = sym (ap (λ o. o.0) picked) ∙ h;
            }
        | inr other ↦
            let picked = run ∙ ap (λ b. choose unpackb rid method deadline fuel v b d) other in
            let a = await_reply-IsAnswered fuel d (sym (ap (λ o. o.0) picked) ∙ h) in
            record {
              skipped = v ∷ a.skipped;
              answer = a.answer;
              others = ((x, id, other), a.others);
              mine = a.mine;
              carried = (
                available d,
                f,
                subst (Carries unpackb (a.skipped ++ a.answer ∷ []) (available d))
                    (sym (ap (λ o. available o.1) picked)) a.carried,
              );
              said = a.said;
            }
      ]
