-- ===== src/Wire/Frame.antt =====
-- `encode_frame` of test-harness/lib/cs_probe.py, the header that `_read_frame` unpacks, and the
-- round trip of the header. `packb` stands for `msgpack.packb`.
use claude_studio.Prelude.{
  ℕ, ◌+◌, ◌*◌, ◌/◌, ◌%◌, ◌^◌, ◌<◌, ◌≡◌, List, [], ◌∷◌, ◌++◌, arith, ltb, length, ◌≤◌, Bool-cases,
  inl, inr, ltb→le, sym, if◌then◌else◌, ap,
}
use claude_studio.Python.Result.{Result, ok, err, value_error, struct_error, ok-injective}

abbrev pub Bytes : Type 0
Bytes = List ℕ

abbrev pub IsByte : ℕ → Type 0
IsByte b = b < 256

abbrev pub max_frame : ℕ
max_frame = 16 * 1024 * 1024

-- `struct.pack(">I", n)`
abbrev pub pack_u32 : ℕ → Bytes
pack_u32 n = (n / 2 ^ 24 % 256) ∷ (n / 2 ^ 16 % 256) ∷ (n / 2 ^ 8 % 256) ∷ (n % 256) ∷ []

-- `struct.unpack(">I", b)`, which wants exactly four bytes.
abbrev pub unpack_u32 : Bytes → Result ℕ
unpack_u32 (a ∷ b ∷ c ∷ d ∷ []) = ok (a * 2 ^ 24 + b * 2 ^ 16 + c * 2 ^ 8 + d)
unpack_u32 _ = err struct_error

pub unpack_u32-pack_u32 : (n : ℕ) → n < 2 ^ 32 → unpack_u32 (pack_u32 n) ≡ ok n
unpack_u32-pack_u32 n h = ap ok (omega arith)

module _ {ℓ} {V : Type ℓ} (packb : V → Bytes) where
  unfoldable pub encode_frame : V → Result Bytes
  encode_frame v =
      let body = packb v in
      if ltb max_frame (length body)
      then err (value_error "frame too large")
      else ok (pack_u32 (length body) ++ body)

  -- A frame that is encoded has a body within the limit, behind its length.
  pub encode_frame-inv :
      (v : V) {frame : Bytes}
      → encode_frame v ≡ ok frame
      → (length (packb v) ≤ max_frame) × (frame ≡ pack_u32 (length (packb v)) ++ packb v)
  unfolding encode_frame
  encode_frame-inv v {frame} e = elim (Bool-cases (ltb max_frame (length (packb v)))) [
    | inl large ↦ let e' : err (value_error "frame too large") ≡ ok frame = rw large at e in cc
    | inr small ↦
        let e' : ok (pack_u32 (length (packb v)) ++ packb v) ≡ ok frame = rw small at e in
        (ltb→le _ _ small, sym (ok-injective e'))
  ]
