-- ===== src/Wire/Client/RoundTrip.antt =====
-- Frames that one side has encoded, as the other side's `_read_frame` sees them: whole, one after
-- another, or broken off.
use claude_studio.Prelude.{◌≡◌, refl, ap, ◌∙◌, ◌++◌, length, arith, append_assoc}
use claude_studio.Python.Json.{Json}
use claude_studio.Python.Result.{Result, ok}
use claude_studio.Wire.Frame.{Bytes, pack_u32, unpack_u32-pack_u32, encode_frame, encode_frame-inv}
use claude_studio.Wire.Client.{Client, read_frame}
use claude_studio.Wire.Client.Stream.{available}
use claude_studio.Wire.Client.Frames.{IsFrame, read_frame-ok}

module _ (packb : Json → Bytes) (unpackb : Bytes → Result Json) where
  -- An encoded value is a frame of that value.
  pub encode_frame-IsFrame :
      (v : Json) {frame : Bytes} (rest : Bytes)
      → encode_frame packb v ≡ ok frame
      → unpackb (packb v) ≡ ok v
      → IsFrame unpackb v (frame ++ rest) rest
  encode_frame-IsFrame v {frame} rest e law =
      let (small, same) = encode_frame-inv packb v e in
      record {
        header = pack_u32 (length (packb v));
        body = packb v;
        four = refl;
        size = unpack_u32-pack_u32 (length (packb v)) (omega arith);
        fits = small;
        decoded = law;
        stream =
            ap (λ f. f ++ rest) same ∙ append_assoc (pack_u32 (length (packb v))) (packb v) rest;
      }

  -- If encode_frame accepts a value and msgpack decodes that value's encoding back, a client whose
  -- stream begins with the frame reads the value, however the stream is cut into chunks, and keeps
  -- the bytes behind it.
  pub read_frame-encode_frame :
      (v : Json) {frame : Bytes} (rest : Bytes) (c : Client)
      → encode_frame packb v ≡ ok frame
      → unpackb (packb v) ≡ ok v
      → available c ≡ frame ++ rest
      → ((read_frame unpackb c).0 ≡ ok v) × (available (read_frame unpackb c).1 ≡ rest)
  read_frame-encode_frame v rest c e law stream =
      let f = encode_frame-IsFrame v rest e law in
      read_frame-ok unpackb c rest (record {
        header = f.header;
        body = f.body;
        four = f.four;
        size = f.size;
        fits = f.fits;
        decoded = f.decoded;
        stream = stream ∙ f.stream;
      })
