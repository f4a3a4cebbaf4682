-- ===== src/Probes/Meaning/Constant.antt =====
-- The probe modules on a core that gives one and the same reply to every request.
use claude_studio.Prelude.{◌≡◌, String, str_eq, eq_iff, true, false, arith}
use claude_studio.Python.Json.{Json, bool, str}
use claude_studio.Python.Result.{Result}
use claude_studio.Python.Values.{value_eq}
use claude_studio.Python.Stateful.{Stateful}
use claude_studio.Probes.Harness.{Harness}
use claude_studio.Probes.Meaning.{has_ended}
use claude_studio.Probes.Batch3.Helpers.{chk}
use claude_studio.Probes.Batch3.F286To292.{f288, f291}
use claude_studio.Probes.Batch3.F293To298.{f295, f297}
use claude_studio.Probes.Batch5.{f301, f303, f310, f313, f314}
use claude_studio.Probes.Batch8.F247To158.{f247}
use claude_studio.Probes.Batch10.F271To327.{f276}
use claude_studio.Probes.Batch10.F330To353.{f330}
use claude_studio.Probes.Batch16.F81To279.{f080}
use claude_studio.Probes.Batch17.F70To329.{f328}
use claude_studio.Probes.Batch21.{f254}

-- A value is equal to one text at most.
value_eq-str :
    (s t : String) (v : Json)
    → value_eq v (str s) ≡ true
    → value_eq v (str t) ≡ true
    → str_eq s t ≡ true
unfolding value_eq
value_eq-str s t (str u) e f = ground (arith, eq_iff u s, eq_iff s t, eq_iff u t)
value_eq-str s t (bool true) e f = cc
value_eq-str s t (bool false) e f = cc
value_eq-str s t v e f = cc

-- The part of a feature raises.
abbrev pub Fails : {W : Type 0} → W → Stateful W (String × String) → Type 0
Fails w body = has_ended (body w).0 ≡ false

module _ {W : Type 0} (h : Harness W) (reply : Result Json)
    (answers : (method : String) (payload : Json) (w : W) → (h.request method payload w).0 ≡ reply)
    (w : W) where
  -- A core that gives one and the same reply to every request, whatever it is, passes none of the
  -- features that ask two questions and want different answers: F288, F291, F295 and F297 of
  -- batch3, F301, F303, F310, F313 and F314 of batch5, F247 of batch8, F276 and F330 of batch10, F080
  -- of batch16, F328 of batch17 and F254 of batch21.
  pub constant-Fails :
      Fails w (f288 h)
      × Fails w (f291 h)
      × Fails w (f295 h)
      × Fails w (f297 h)
      × Fails w (f301 h)
      × Fails w (f303 h)
      × Fails w (f310 h)
      × Fails w (f313 h)
      × Fails w (f314 h)
      × Fails w (f247 h)
      × Fails w (f276 h)
      × Fails w (f330 h)
      × Fails w (f080 h)
      × Fails w (f328 h)
      × Fails w (f254 h)
  unfolding chk f288 f291 f295 f297 f301 f303 f310 f313 f314 f247 f276 f330 f080 f328 f254
  constant-Fails = (
    grind (arith, answers, value_eq-str "ask" "allow"),
    grind (arith, answers, value_eq-str "ask" "allow"),
    grind (arith, answers, value_eq-str "ask" "deny"),
    grind (arith, answers),
    grind (arith, answers, value_eq-str "restart" "ok"),
    grind (arith, answers, value_eq-str "escalate" "ok"),
    grind (arith, answers),
    grind (arith, answers),
    grind (arith, answers, value_eq-str "ok" "warn"),
    grind (arith, answers, value_eq-str "ran fix branch" "ran ok branch"),
    grind (arith, answers),
    grind (arith, answers),
    grind (arith, answers),
    grind (arith, answers),
    grind (arith, answers),
  )
