-- ===== src/Wire/Request.antt =====
-- `Client.request` and `Client.subscribe_events` of test-harness/lib/cs_probe.py. `packb` and
-- `unpackb` stand for msgpack's functions, `rid` for the fresh `uuid4` text.
pub mod Replies
pub mod Sound
pub mod Total
pub mod Events
use claude_studio.Prelude.{
  ℕ, zero, suc, str_append, ◌+◌, String, Bool, true, false, Option, none, some, List, ◌++◌, ltb,
  if◌then◌else◌,
}
use claude_studio.Python.Json.{Json, null, obj, Fields, end, field, str, truthy, is_text}
use claude_studio.Python.Result.{
  Result, ok, err, unpack_error, timeout_error, remote_error, out_of_fuel, get,
}
use claude_studio.Wire.Envelope.{envelope, or_empty, reply}
use claude_studio.Wire.Frame.{Bytes, encode_frame}
use claude_studio.Wire.Client.{Client, Action, ◌>>=◌, ◌>>◌, pure, raise, lift, raise_if, read_frame}

abbrev pub unpacked : (Bytes → Option Json) → Bytes → Result Json
unpacked unpackb b = elim (unpackb b) [ none ↦ err unpack_error | some v ↦ ok v ]

module _ (unpackb : Bytes → Option Json) where
  -- The loop of `request`. The deadline is looked at between frames only.
  unfoldable pub await_reply : ℕ → String → String → ℕ → Action Json
  await_reply zero rid method deadline = raise out_of_fuel
  await_reply (suc fuel) rid method deadline = do
    λ c. raise_if (ltb deadline c.clock) (timeout_error (str_append "no response for " method)) c
    frame ← read_frame (unpacked unpackb)
    id ← lift (get "id" frame)
    elim (is_text rid id) [
      | true ↦ lift (reply method frame)
      | false ↦ await_reply fuel rid method deadline
    ]

  -- One `next` of the generator that `subscribe_events` returns.
  unfoldable pub next_event : ℕ → Action Json
  next_event zero = raise out_of_fuel
  next_event (suc fuel) = do
    frame ← read_frame (unpacked unpackb)
    kind ← lift (get "kind" frame)
    elim (is_text "event" kind) [ true ↦ pure frame | false ↦ next_event fuel ]

-- `self.sock.sendall(b)`
abbrev pub send_all : Bytes → Action (Unit {0})
send_all b c = (ok tt, record c { sent = c.sent ++ b })

module _ (packb : Json → Bytes) (unpackb : Bytes → Option Json) where
  unfoldable pub request : ℕ → String → String → Option Json → Action Json
  request fuel rid method payload = do
    frame ← lift (encode_frame packb (envelope rid method (or_empty payload)))
    send_all frame
    λ c. await_reply unpackb fuel rid method (c.clock + c.timeout) c

  -- `subscribe_events`, up to the generator that it returns.
  unfoldable pub subscribe_events : String → Action (Unit {0})
  subscribe_events rid = do
    frame ← lift (encode_frame packb (envelope rid "events.subscribe" (obj end)))
    send_all frame
