-- ===== src/Tests/Wire.antt =====
-- The client on a stream that carries an event and then the answer, cut in the middle of a header.
use claude_studio.Prelude.{
  ◌≡◌, refl, true, Option, none, some, [], ◌∷◌, arith, ◌==◌, if◌then◌else◌, take, drop,
}
use claude_studio.Python.Json.{Json, str, obj, end, field, bool}
use claude_studio.Python.Result.{ok, err, value_error, Exception}
use claude_studio.Wire.Frame.{Bytes, encode_frame}
use claude_studio.Wire.Envelope.{reply}
use claude_studio.Wire.Client.{chunk, Client, fill, read_exactly, read_body, read_frame}
use claude_studio.Wire.Client.Stream.{available, IsLost, read_exactly-ok, read_exactly_short}
use claude_studio.Wire.Client.Frames.{IsFrame, read_frame-IsFrame, read_frame_large}
use claude_studio.Wire.Client.RoundTrip.{read_frame-encode_frame}
use claude_studio.Wire.Request.{next_event, unpacked, await_reply, request}
use claude_studio.Wire.Request.Events.{next_event-yields}
use claude_studio.Wire.Request.Replies.{request-answer}
use claude_studio.Wire.Request.Sound.{IsAnswered, await_reply-IsAnswered}
use claude_studio.Wire.Request.Total.{IsPython, await_reply-IsPython}

abbrev event : Json
event = obj (field "id" (str "e1") (field "kind" (str "event") end))

abbrev pong : Json
pong = obj (field "pong" (bool true) end)

abbrev answer : Json
answer = obj (field "id" (str "r1") (field "kind" (str "response") (field "payload" pong end)))

-- A codec of two values, one byte each.
abbrev packb : Json → Bytes
packb v = 2 ∷ []

abbrev unpackb : Bytes → Option Json
unpackb [] = none
unpackb (b ∷ bs) = if b == 1 then some event else if b == 2 then some answer else none

abbrev client : Client
client = record {
  buf = 0 ∷ [];
  inbox = chunk 5 (0 ∷ 0 ∷ []) ∷ chunk 7 (1 ∷ 1 ∷ 0 ∷ 0 ∷ 0 ∷ 1 ∷ []) ∷ chunk 1 (2 ∷ 4 ∷ []) ∷ [];
  sent = [];
  clock = 100;
  timeout = 15000;
}

abbrev after : Client
after = record client { buf = 4 ∷ []; inbox = []; clock = 113 }

await_reply_test : await_reply unpackb 2 "r1" "ping" 15100 client ≡ (ok pong, after)
unfolding await_reply read_frame read_body read_exactly fill reply
await_reply_test = refl

read_exactly_test : (read_exactly 4 client).0 ≡ ok (0 ∷ 0 ∷ 0 ∷ 1 ∷ [])
unfolding read_exactly fill
read_exactly_test = refl

read_frame_test : (read_frame (unpacked unpackb) client).0 ≡ ok event
unfolding read_frame read_body read_exactly fill
read_frame_test = refl

event-IsFrame : IsFrame (unpacked unpackb) event (available client) (0 ∷ 0 ∷ 0 ∷ 1 ∷ 2 ∷ 4 ∷ [])
event-IsFrame = record {
  header = 0 ∷ 0 ∷ 0 ∷ 1 ∷ [];
  body = 1 ∷ [];
  four = refl;
  size = refl;
  fits = omega arith;
  decoded = refl;
  stream = refl;
}

answer-IsFrame : IsFrame (unpacked unpackb) answer (0 ∷ 0 ∷ 0 ∷ 1 ∷ 2 ∷ 4 ∷ []) (4 ∷ [])
answer-IsFrame = record {
  header = 0 ∷ 0 ∷ 0 ∷ 1 ∷ [];
  body = 2 ∷ [];
  four = refl;
  size = refl;
  fits = omega arith;
  decoded = refl;
  stream = refl;
}

encode_frame_test : (v : Json) → encode_frame packb v ≡ ok (0 ∷ 0 ∷ 0 ∷ 1 ∷ 2 ∷ [])
unfolding encode_frame
encode_frame_test v = refl

request-answer_example :
    ((request packb unpackb 2 "r1" "ping" none client).0 ≡ reply "ping" answer)
    × (available (request packb unpackb 2 "r1" "ping" none client).1 ≡ 4 ∷ [])
request-answer_example =
    request-answer packb unpackb 2 "r1" "ping" none client (event ∷ []) answer (4 ∷ [])
      (encode_frame_test _) ((str "e1", refl, refl), tt) (str "r1", refl, refl)
      (0 ∷ 0 ∷ 0 ∷ 1 ∷ 2 ∷ 4 ∷ [], event-IsFrame, (4 ∷ [], answer-IsFrame, refl)) (omega arith)
      (omega arith)

await_reply_ok : (await_reply unpackb 2 "r1" "ping" 15100 client).0 ≡ ok pong
unfolding await_reply read_frame read_body read_exactly fill reply
await_reply_ok = refl

await_reply-IsAnswered_example :
    IsAnswered unpackb "r1" "ping" 15100 pong
      (available client)
      (available (await_reply unpackb 2 "r1" "ping" 15100 client).1)
await_reply-IsAnswered_example =
    await_reply-IsAnswered unpackb "r1" "ping" 15100 2 client await_reply_ok

await_reply-IsPython_example : IsPython (await_reply unpackb 12 "r1" "ping" 15100 client).0
await_reply-IsPython_example =
    await_reply-IsPython unpackb "r1" "ping" 15100 12 client (omega arith)

read_frame-IsFrame_example :
    IsFrame
      (unpacked unpackb)
      event
      (available client)
      (available (read_frame (unpacked unpackb) client).1)
read_frame-IsFrame_example = read_frame-IsFrame (unpacked unpackb) client read_frame_test

read_exactly-ok_example :
    ((read_exactly 4 client).0 ≡ ok (take 4 (available client)))
    × (available (read_exactly 4 client).1 ≡ drop 4 (available client))
read_exactly-ok_example = read_exactly-ok 4 client (omega arith)

read_exactly_short_example :
    (e : Exception) × IsLost e
    × ((read_exactly 12 client).0 ≡ err e)
    × ((read_exactly 12 client).1.buf ≡ available client)
read_exactly_short_example = read_exactly_short 12 client (omega arith)

abbrev greedy : Client
greedy = record client { buf = 1 ∷ []; inbox = chunk 3 (0 ∷ 0 ∷ 1 ∷ 7 ∷ []) ∷ [] }

read_frame_large_example :
    ((read_frame (unpacked unpackb) greedy).0 ≡ err (value_error "frame too large"))
    × (available (read_frame (unpacked unpackb) greedy).1 ≡ drop 4 (available greedy))
read_frame_large_example =
    read_frame_large (unpacked unpackb) greedy 16777217 (omega arith) refl (omega arith)

abbrev echoed : Client
echoed = record client {
  buf = [];
  inbox = chunk 1 (0 ∷ 0 ∷ []) ∷ chunk 1 (0 ∷ 1 ∷ 2 ∷ 8 ∷ []) ∷ [];
}

read_frame-encode_frame_example :
    ((read_frame (unpacked unpackb) echoed).0 ≡ ok answer)
    × (available (read_frame (unpacked unpackb) echoed).1 ≡ 8 ∷ [])
read_frame-encode_frame_example =
    read_frame-encode_frame packb (unpacked unpackb) answer (8 ∷ []) echoed
      (encode_frame_test answer) refl refl

next_event-yields_example :
    ((next_event unpackb 1 client).0 ≡ ok event)
    × (available (next_event unpackb 1 client).1 ≡ 0 ∷ 0 ∷ 0 ∷ 1 ∷ 2 ∷ 4 ∷ [])
next_event-yields_example =
    next_event-yields unpackb [] event client (0 ∷ 0 ∷ 0 ∷ 1 ∷ 2 ∷ 4 ∷ []) 1 tt
      (str "event", refl, refl) (0 ∷ 0 ∷ 0 ∷ 1 ∷ 2 ∷ 4 ∷ [], event-IsFrame, refl) (omega arith)
