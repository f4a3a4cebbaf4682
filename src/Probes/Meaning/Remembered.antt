-- ===== src/Probes/Meaning/Remembered.antt =====
-- test-harness/probes/batch3.py, batch10.py and batch16.py: the features that set a value and ask
-- for it again, on a core that remembers it.
use claude_studio.Prelude.{◌≡◌, String, true, arith}
use claude_studio.Python.Json.{Json, str, obj, end, field}
use claude_studio.Python.Result.{ok}
use claude_studio.Python.Values.{value_eq}
use claude_studio.Python.Dynamic.{table_of}
use claude_studio.Probes.Harness.{Harness}
use claude_studio.Probes.Meaning.{has_ended, WritesEvidence}
use claude_studio.Probes.Batch3.F286To292.{f286}
use claude_studio.Probes.Batch10.F330To353.{f330}
use claude_studio.Probes.Batch16.F284To113.{f345}

-- A value that the core takes with one request and gives with another, and under which keys.
pub record Setting : Type 0 where
  pub set : String
  pub told : Json → Json
  pub get : String
  pub asked : Json
  pub name : String

abbrev pub trust_mode : Setting
trust_mode = record {
  set = "config.set";
  told = λ v. obj (field "trust_mode" v end);
  get = "config.get";
  asked = obj end;
  name = "trust_mode";
}

abbrev pub dark_mode : Setting
dark_mode = record {
  set = "flags.set";
  told = λ v. obj (field "name" (str "dark_mode") (field "enabled" v end));
  get = "flags.eval";
  asked = obj (field "name" (str "dark_mode") end);
  name = "enabled";
}

abbrev pub extended_thinking : Setting
extended_thinking = record {
  set = "settings.set";
  told = λ v. obj (field "key" (str "extended_thinking") (field "value" v end));
  get = "settings.get";
  asked = obj (field "key" (str "extended_thinking") end);
  name = "value";
}

-- The core takes any value of the setting, and gives it when it is asked next.
pub record Remembers {W : Type 0} (h : Harness W) (x : Setting) (receipt : Json) : Type 0 where
  pub taken : (v : Json) (w : W) → (h.request x.set (x.told v) w).0 ≡ ok receipt
  pub given :
      (v : Json) (w : W)
      → (h.request x.get x.asked (h.request x.set (x.told v) w).1).0 ≡ ok (obj (field x.name v end))

module _ {W : Type 0} (h : Harness W) (receipt : Json) (path : String → String → String)
    (writes : WritesEvidence h path) (w : W) where
  -- On a core that takes the trust mode, the flag and the setting, and gives each when it is asked
  -- next, and if evidence can be written, F286 of batch3, F330 of batch10 and F345 of batch16 pass.
  pub Remembers-passes :
      Remembers h trust_mode receipt
      → Remembers h dark_mode receipt
      → Remembers h extended_thinking receipt
      → (has_ended (f286 h w).0 ≡ true)
        × (has_ended (f330 h w).0 ≡ true)
        × (has_ended (f345 h w).0 ≡ true)
  unfolding f286 f330 f345 table_of value_eq
  Remembers-passes mode flag setting = (
    grind (arith, mode.taken, mode.given, writes),
    grind (arith, flag.taken, flag.given, writes),
    grind (arith, setting.taken, setting.given, writes),
  )
