-- ===== src/Wire/Envelope.antt =====
-- The envelopes of the socket protocol: what `Client.request` of test-harness/lib/cs_probe.py sends,
-- and what it makes of the frame that answers it.
use claude_studio.Prelude.{String, Option, none, some, if◌then◌else◌}
use claude_studio.Python.Json.{Json, obj, end, field, str, truthy, is_text}
use claude_studio.Python.Result.{Result, ok, err, remote_error, get, ◌>>=◌}

-- `payload or {}`
abbrev pub or_empty : Option Json → Json
or_empty none = obj end
or_empty (some p) = if truthy p then p else obj end

abbrev pub envelope : String → String → Json → Json
envelope rid method payload = obj (
    field "id" (str rid)
      (field "kind" (str "request") (field "method" (str method) (field "payload" payload end))))

-- `raise RemoteError(p.get("code"), p.get("message"), method)`
abbrev pub raise_remote : String → Json → Result Json
raise_remote method p = do
  code ← get "code" p
  message ← get "message" p
  err (remote_error code message method)

-- What a request makes of the frame that carries its id.
unfoldable pub reply : String → Json → Result Json
reply method frame = do
  kind ← get "kind" frame
  payload ← get "payload" frame
  if is_text "error" kind then raise_remote method (or_empty (some payload)) else ok payload
