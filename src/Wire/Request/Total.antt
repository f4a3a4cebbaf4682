-- ===== src/Wire/Request/Total.antt =====
-- The loop of `request` ends: each round takes four bytes at least off the stream, or it is the
-- last one.
use claude_studio.Prelude.{
  ℕ, zero, suc, ◌<◌, ◌≡◌, ◌≢◌, sym, ap, ◌∙◌, String, true, false, Option, none, some, [], ◌∷◌,
  length, arith, ltb, str_append, inl, inr, Bool-cases, Option-cases, ltb→lt, ltb→le,
}
use claude_studio.Python.Json.{Json, is_text, obj}
use claude_studio.Python.Result.{
  Result, ok, err, Exception, timeout_error, out_of_fuel, get, unpack_error,
}
use claude_studio.Wire.Frame.{Bytes, max_frame, unpack_u32}
use claude_studio.Wire.Envelope.{reply}
use claude_studio.Wire.Client.{
  Client, Action, ◌>>=◌, lift, raise_if, read_exactly, read_body, read_frame, >>=-result,
}
use claude_studio.Wire.Client.Stream.{available, IsLost, read_exactly-ok, read_exactly_short}
use claude_studio.Wire.Client.Frames.{IsFrame-shrinks, read_frame-IsFrame}
use claude_studio.Wire.Request.{unpacked, await_reply}
use claude_studio.Wire.Request.Replies.{choose, pick, with_id}

-- The result is one of Python's: the model did not cut a loop short.
abbrev pub IsPython {ℓ} : {A : Type ℓ} → Result A → Type ℓ
IsPython r = r ≢ err out_of_fuel

IsLost-ne-out_of_fuel : {e : Exception} → IsLost e → e ≢ out_of_fuel
IsLost-ne-out_of_fuel IsLost.closed h = cc
IsLost-ne-out_of_fuel IsLost.timed_out h = cc

err-injective {ℓ} : {A : Type ℓ} {e d : Exception} → ◌≡◌ {A = Result A} (err e) (err d) → e ≡ d
err-injective h = cc

-- An exception that one result shows is Python's wherever it is raised.
err-IsPython {ℓ κ} :
    {A : Type ℓ} {B : Type κ} (r : Result A) {e : Exception}
    → IsPython r
    → r ≡ err e
    → IsPython {A = B} (err e)
err-IsPython r h p q = h (p ∙ ap err (err-injective q))

read_exactly-IsPython : (n : ℕ) (c : Client) → IsPython (read_exactly n c).0
read_exactly-IsPython n c h = elim (Bool-cases (ltb (length (available c)) n)) [
  | inl less ↦
      let (e, lost, p, _) = read_exactly_short n c (ltb→lt _ _ less) in
      IsLost-ne-out_of_fuel lost (err-injective (sym p ∙ h))
  | inr enough ↦ let p = (read_exactly-ok n c (ltb→le _ _ enough)).0 in let bad = sym p ∙ h in cc
]

unpack_u32-IsPython : (b : Bytes) → IsPython (unpack_u32 b)
unpack_u32-IsPython (a ∷ b ∷ c ∷ d ∷ []) h = cc
unpack_u32-IsPython [] h = cc
unpack_u32-IsPython (a ∷ []) h = cc
unpack_u32-IsPython (a ∷ b ∷ []) h = cc
unpack_u32-IsPython (a ∷ b ∷ c ∷ []) h = cc
unpack_u32-IsPython (a ∷ b ∷ c ∷ d ∷ e ∷ r) h = cc

get-IsPython : (k : String) (v : Json) → IsPython (get k v)
get-IsPython k (obj fs) h = cc
get-IsPython k v h = cc

unpacked-IsPython : (unpackb : Bytes → Option Json) (b : Bytes) → IsPython (unpacked unpackb b)
unpacked-IsPython unpackb b h = elim (Option-cases (unpackb b)) [
  | inl e ↦
      let bad =
        sym (ap (λ o. elim o as (λ _. Result Json) [ none ↦ err unpack_error | some v ↦ ok v ]) e)
        ∙ h in
      cc
  | inr (v, e) ↦
      let bad =
        sym (ap (λ o. elim o as (λ _. Result Json) [ none ↦ err unpack_error | some v ↦ ok v ]) e)
        ∙ h in
      cc
]

reply-IsPython : (method : String) (v : Json) → IsPython (reply method v)
unfolding reply
reply-IsPython method v h = ground arith

read_body-IsPython :
    (unpackb : Bytes → Option Json) (size : ℕ) (c : Client)
    → IsPython (read_body (unpacked unpackb) size c).0
unfolding read_body
read_body-IsPython unpackb size c = elim (Bool-cases (ltb max_frame size)) [
  | inl large ↦ rw large (λ h. cc)
  | inr small ↦ rw small (
      >>=-result (read_exactly size) (λ b. lift (unpacked unpackb b)) c IsPython
        (λ e p. err-IsPython (read_exactly size c).0 (read_exactly-IsPython size c) p)
        (λ b _. unpacked-IsPython unpackb b))
]

read_frame-IsPython :
    (unpackb : Bytes → Option Json) (c : Client) → IsPython (read_frame (unpacked unpackb) c).0
unfolding read_frame
read_frame-IsPython unpackb c =
    >>=-result (read_exactly 4) decode c IsPython
      (λ e p. err-IsPython (read_exactly 4 c).0 (read_exactly-IsPython 4 c) p)
      (λ b _.
        >>=-result (lift (unpack_u32 b)) (read_body (unpacked unpackb)) (read_exactly 4 c).1
          IsPython (λ e p. err-IsPython (unpack_u32 b) (unpack_u32-IsPython b) p)
          (λ size _. read_body-IsPython unpackb size (read_exactly 4 c).1))
  where
    decode : Bytes → Action Json
    decode b = do size ← lift (unpack_u32 b); read_body (unpacked unpackb) size

module _ (unpackb : Bytes → Option Json) (rid method : String) (deadline : ℕ) where
  -- With more fuel than bytes that can arrive the loop is never cut short: it returns or raises.
  pub await_reply-IsPython :
      (fuel : ℕ) (c : Client)
      → length (available c) < fuel
      → IsPython (await_reply unpackb fuel rid method deadline c).0
  unfolding await_reply
  await_reply-IsPython zero c h = absurd (omega arith)
  await_reply-IsPython (suc fuel) c h =
      let late : Action (Unit {0}) = λ d.
        raise_if (ltb deadline d.clock) (timeout_error (str_append "no response for " method)) d in
      let read : Action Json = read_frame (unpacked unpackb) in
      let go : Json → Action Json = with_id unpackb rid method deadline fuel in
      >>=-result late (λ _. read >>= go) c IsPython (λ e p. late-IsPython e p)
        λ _ _.
          >>=-result read go c IsPython
            (λ e p. err-IsPython (read c).0 (read_frame-IsPython unpackb c) p)
            λ v got.
              >>=-result (lift (get "id" v)) (pick unpackb rid method deadline fuel v) (read c).1
                IsPython (λ e p. err-IsPython (get "id" v) (get-IsPython "id" v) p)
                λ x _. next v x (await_reply-IsPython fuel (read c).1 (less v got))
    where
      late-IsPython :
          (e : Exception)
          → (raise_if
              (ltb deadline c.clock)
              (timeout_error (str_append "no response for " method))
              c).0
            ≡ err e
          → IsPython {A = Json} (err e)
      late-IsPython e p q = ground arith

      less :
          (v : Json)
          → (read_frame (unpacked unpackb) c).0 ≡ ok v
          → length (available (read_frame (unpacked unpackb) c).1) < fuel
      less v got = omega (arith, IsFrame-shrinks (read_frame-IsFrame (unpacked unpackb) c got))

      next :
          (v x : Json)
          → IsPython
              (await_reply unpackb fuel rid method deadline (read_frame (unpacked unpackb) c).1).0
          → IsPython
              (pick unpackb rid method deadline fuel v x (read_frame (unpacked unpackb) c).1).0
      next v x ih =
          elim (is_text rid x)
            as (λ b.
              IsPython
                (choose unpackb rid method deadline fuel v b
                  (read_frame (unpacked unpackb) c).1).0) [
                    | true ↦ reply-IsPython method v
                    | false ↦ ih
                  ]
