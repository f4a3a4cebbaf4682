-- ===== src/Probes/Meaning.antt =====
-- What a passed feature says of the core: the terms in which the modules below this one state it.
pub mod Permissions
pub mod Constant
pub mod Silent
pub mod Reported
pub mod Remembered
pub mod Fallback
use claude_studio.Prelude.{◌≡◌, String, Bool, true, false, ◌&&◌}
use claude_studio.Python.Json.{Json, str, bool}
use claude_studio.Python.Result.{Result, ok, err, index}
use claude_studio.Python.Values.{value_eq}
use claude_studio.Probes.Harness.{Harness}

abbrev pub has_ended : {A : Type 0} → Result A → Bool
has_ended r = elim r [ ok _ ↦ true | err _ ↦ false ]

-- A reply has a value under the key `k` that passes the test.
abbrev pub tells : String → (Json → Bool) → Result Json → Bool
tells k test r = elim r [
  | err _ ↦ false
  | ok reply ↦ elim (index k reply) [ err _ ↦ false | ok v ↦ test v ]
]

abbrev pub is_text : String → Json → Bool
is_text s v = value_eq v (str s)

module _ {W : Type 0} (h : Harness W) where
  -- Requests of one method are answered by their payload alone.
  abbrev pub AnswersBy : String → (Json → Result Json) → Type 0
  AnswersBy method policy =
      (payload : Json) (w : W) → (h.request method payload w).0 ≡ policy payload

  -- Evidence can be written, to the file that the feature and the name say.
  abbrev pub WritesEvidence : (String → String → String) → Type 0
  WritesEvidence path =
      (fid name text : String) (w : W) → (h.write_evidence fid name text w).0 ≡ ok (path fid name)
