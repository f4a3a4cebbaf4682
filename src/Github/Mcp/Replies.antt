-- ===== src/Github/Mcp/Replies.antt =====
-- Every JSON-RPC request is answered once, under its own id, and no tool brings the loop down.
use claude_studio.Prelude.{
  ◌≡◌, refl, Bool, true, false, not, ◌&&◌, ◌||◌, List, [], ◌∷◌, Bool-cases, inl, inr,
}
use claude_studio.Python.Json.{Json, obj, Fields, lookup, or_null, is_text}
use claude_studio.Python.Result.{Result, ok, get}
use claude_studio.Github.Mcp.{Outside, is_null, handle_method, handle}

-- A message that wants no answer: the notification, and a method that is not known without an id.
abbrev pub is_quiet : Json → Json → Bool
is_quiet method mid =
    not (is_text "initialize" method)
    && (is_text "notifications/initialized" method
        || (not (is_text "tools/list" method) && not (is_text "tools/call" method) && is_null mid))

-- What is sent for a message: nothing, or one answer under the message's id.
abbrev pub IsAnswered : Bool → Json → Result (List Json) → Type 0
IsAnswered true mid sent = sent ≡ ok []
IsAnswered false mid sent = (answer : Json) × (sent ≡ ok (answer ∷ [])) × (get "id" answer ≡ ok mid)

module _ {W : Type 0} (out : Outside W) where
  handle_method-IsAnswered :
      (method mid : Json) (fs : Fields) (w : W)
      → IsAnswered (is_quiet method mid) mid (handle_method out method mid (obj fs) w).0
  unfolding handle_method
  handle_method-IsAnswered method mid fs w = elim (Bool-cases (is_text "initialize" method)) [
    | inl a ↦ rw a (_, refl, refl)
    | inr a ↦ elim (Bool-cases (is_text "notifications/initialized" method)) [
      | inl b ↦ rw (a, b) refl
      | inr b ↦ elim (Bool-cases (is_text "tools/list" method)) [
        | inl c ↦ rw (a, b, c) (_, refl, refl)
        | inr c ↦ elim (Bool-cases (is_text "tools/call" method)) [
          | inl d ↦ rw (a, b, c, d) (_, refl, refl)
          | inr d ↦ elim (Bool-cases (is_null mid)) [
            | inl e ↦ rw (a, b, c, d, e) refl
            | inr e ↦ rw (a, b, c, d, e) (_, refl, refl)
          ]
        ]
      ]
    ]
  ]

  -- Every message that is a dict is handled without an exception, whatever the tool, its arguments
  -- or the API make of it: a quiet message is not answered, any other once and under its own id.
  pub handle-IsAnswered :
      (fs : Fields) (w : W)
      → let method = or_null (lookup "method" fs) in
        let mid = or_null (lookup "id" fs) in
        IsAnswered (is_quiet method mid) mid (handle out (obj fs) w).0
  unfolding handle
  handle-IsAnswered fs w =
      handle_method-IsAnswered (or_null (lookup "method" fs)) (or_null (lookup "id" fs)) fs w
