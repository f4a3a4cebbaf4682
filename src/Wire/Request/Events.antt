-- ===== src/Wire/Request/Events.antt =====
-- The generator of `subscribe_events` against the frames on the stream.
use claude_studio.Prelude.{
  ℕ, suc, zero, ◌<◌, ◌≡◌, refl, sym, ap, ◌∙◌, subst, Bool, true, false, Option, List, [], ◌∷◌, ◌++◌,
  length, arith, All,
}
use claude_studio.Python.Json.{Json, is_text}
use claude_studio.Python.Result.{ok, get}
use claude_studio.Wire.Frame.{Bytes}
use claude_studio.Wire.Client.{Client, Action, ◌>>=◌, lift, pure, read_frame, >>=-ok}
use claude_studio.Wire.Client.Stream.{available}
use claude_studio.Wire.Client.Frames.{read_frame-ok}
use claude_studio.Wire.Request.{unpacked, next_event}
use claude_studio.Wire.Request.Replies.{Carries}

-- A frame of the kind event, and a dict of another kind.
abbrev pub OfKind : Bool → Json → Type 0
OfKind b v = (kind : Json) × (get "kind" v ≡ ok kind) × (is_text "event" kind ≡ b)

module _ (unpackb : Bytes → Option Json) where
  abbrev choose_event : ℕ → Json → Bool → Action Json
  choose_event fuel frame b = elim b [ true ↦ pure frame | false ↦ next_event unpackb fuel ]

  next_event-eq :
      (fuel : ℕ) (b : Bool) (c : Client) {v : Json}
      → (read_frame (unpacked unpackb) c).0 ≡ ok v
      → OfKind b v
      → next_event unpackb (suc fuel) c ≡ choose_event fuel v b (read_frame (unpacked unpackb) c).1
  unfolding next_event
  next_event-eq fuel b c {v} got (kind, has, is) =
      let pick : Json → Json → Action Json =
        λ frame k. choose_event fuel frame (is_text "event" k) in
      >>=-ok (read_frame (unpacked unpackb)) (λ frame. lift (get "kind" frame) >>= pick frame) c got
      ∙ >>=-ok (lift (get "kind" v)) (pick v) (read_frame (unpacked unpackb) c).1 has
      ∙ ap (λ x. choose_event fuel v x (read_frame (unpacked unpackb) c).1) is

  -- If the stream begins with frames of other kinds and then one of the kind event, and the fuel
  -- exceeds their number, the generator yields that event, and the stream stands behind it.
  pub next_event-yields :
      (skipped : List Json) (v : Json) (c : Client) (rest : Bytes) (fuel : ℕ)
      → All (OfKind false) skipped
      → OfKind true v
      → Carries unpackb (skipped ++ v ∷ []) (available c) rest
      → length skipped < fuel
      → let out = next_event unpackb fuel c in (out.0 ≡ ok v) × (available out.1 ≡ rest)
  next_event-yields skipped v c rest zero others event carried few = absurd (omega arith)
  next_event-yields [] v c rest (suc fuel) others event (mid, f, last) few =
      let (got, left) = read_frame-ok (unpacked unpackb) c mid f in
      rw (next_event-eq fuel true c got event) (refl, left ∙ last)
  next_event-yields (w ∷ ws) v c rest (suc fuel) (other, others) event (mid, f, carried) few =
      let (got, left) = read_frame-ok (unpacked unpackb) c mid f in
      rw (next_event-eq fuel false c got other) (
        next_event-yields ws v (read_frame (unpacked unpackb) c).1 rest fuel others event
          (subst (λ s. Carries unpackb (ws ++ v ∷ []) s rest) (sym left) carried) (omega arith))
