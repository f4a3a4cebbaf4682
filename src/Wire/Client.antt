-- ===== src/Wire/Client.antt =====
-- `class Client` of test-harness/lib/cs_probe.py as state and exceptions. The socket's input is the
-- list of what the coming `recv` calls meet; the bytes that were sent are kept.
pub mod Stream
pub mod Frames
pub mod RoundTrip
use claude_studio.Prelude.{
  ℕ, ◌+◌, ◌≡◌, ap, subst, sym, ◌∙◌, inl, inr, String, Bool, not, List, [], ◌∷◌, ◌++◌, ltb, length,
  take, drop, if◌then◌else◌, zero, suc,
}
use claude_studio.Python.Json.{Json, null, obj, Fields, end, field, str, truthy, is_text}
use claude_studio.Python.Result.{
  Exception, Result, ok, err, value_error, connection_error, timeout_error, remote_error,
  out_of_fuel, get, Result-cases, err-ne-ok,
}
pub use claude_studio.Python.Stateful.{
  ◌>>=◌, ◌>>◌, >>=-ok, >>=-err, >>=-inv, >>=-result, >>=-keeps, pure, raise, lift, raise_if,
}
use claude_studio.Python.Stateful.{Stateful}
use claude_studio.Wire.Frame.{Bytes, max_frame, unpack_u32, encode_frame}

-- One `recv` call: bytes that arrive after a delay (none of them: the peer has closed), or the
-- socket's timeout. Delays are in milliseconds.
pub data Recv : Type 0 where
  chunk : ℕ → Bytes → Recv
  silence : ℕ → Recv

-- `buf` is `self._buf`, `timeout` the socket's timeout, `clock` what `time.time()` reads.
pub record Client : Type 0 where
  pub buf : Bytes
  pub inbox : List Recv
  pub sent : Bytes
  pub clock : ℕ
  pub timeout : ℕ

-- The state stays changed when a method raises.
abbrev pub Action {ℓ} : Type ℓ → Type ℓ
Action A = Stateful Client A

-- The loop of `_read_exactly`: `recv` until `n` bytes are there.
unfoldable pub fill : ℕ → Client → List Recv → Result (Unit {0}) × Client
fill n c [] =
    if ltb (length c.buf) n
    then (err (connection_error "core closed connection"), record c { inbox = [] })
    else (ok tt, record c { inbox = [] })
fill n c (silence d ∷ es) =
    if ltb (length c.buf) n
    then (err (timeout_error "timed out"), record c { inbox = es; clock = c.clock + d })
    else (ok tt, record c { inbox = silence d ∷ es })
fill n c (chunk d [] ∷ es) =
    if ltb (length c.buf) n
    then (
      err (connection_error "core closed connection"),
      record c { inbox = es; clock = c.clock + d },
    )
    else (ok tt, record c { inbox = chunk d [] ∷ es })
fill n c (chunk d (b ∷ bs) ∷ es) =
    let rest = fill n (record c { buf = c.buf ++ b ∷ bs; clock = c.clock + d }) es in
    if ltb (length c.buf) n then rest else (ok tt, record c { inbox = chunk d (b ∷ bs) ∷ es })

split : ℕ → Action Bytes
split n c = (ok (take n c.buf), record c { buf = drop n c.buf })

unfoldable pub read_exactly : ℕ → Action Bytes
unfolding split
read_exactly n = do (λ c. fill n c c.inbox); split n

module _ (unpackb : Bytes → Result Json) where
  -- `_read_frame` behind the length.
  unfoldable pub read_body : ℕ → Action Json
  read_body size = do
    raise_if (ltb max_frame size) (value_error "frame too large")
    lift (unpackb (← read_exactly size))

  unfoldable pub read_frame : Action Json
  read_frame = do header ← read_exactly 4; size ← lift (unpack_u32 header); read_body size
