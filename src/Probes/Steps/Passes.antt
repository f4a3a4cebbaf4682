-- ===== src/Probes/Steps/Passes.antt =====
-- What a `main` of the plain form (`probe_main`: the features side by side, each in a `try` of its
-- own) does as a whole: which entry each feature gets, what is printed, and that the core is stopped.
use claude_studio.Prelude.{
  ℕ, ◌≡◌, refl, ◌⊎◌, String, str_eq, eq_iff, Bool, false, ◌||◌, some, List, [], ◌∷◌, ◌++◌, arith,
  inl, inr,
}
use claude_studio.Python.Json.{Fields, end, field, obj, lookup, insert, lookup-insert}
use claude_studio.Python.Result.{Exception, ok, err}
use claude_studio.Python.Stateful.{Stateful}
use claude_studio.Probes.Steps.{
  Settings, Harness, Run, attempts, in_core, print_results, probe_main,
}
use claude_studio.Probes.Steps.Verdicts.{verdict, attempt-verdict}

-- The features of such a module, each with the part of its `try`.
abbrev pub Claims : Type 0 → Type 0
Claims W = List (String × Stateful W (String × String))

abbrev pub is_listed : {W : Type 0} → String → Claims W → Bool
is_listed k [] = false
is_listed k ((fid, body) ∷ rest) = str_eq fid k || is_listed k rest

-- The world that the parts leave, one after the other, however they end.
abbrev pub world_after : {W : Type 0} → Claims W → W → W
world_after [] w = w
world_after ((fid, body) ∷ rest) w = world_after rest (body w).1

module _ {W : Type 0} (h : Harness W) where
  -- The entries of the features, each judged in the world that those before it have left.
  abbrev pub judged : Claims W → W → Fields → Fields
  judged [] w fs = fs
  judged ((fid, body) ∷ rest) w fs = judged rest (body w).1 (insert fid (verdict h (body w).0) fs)

  pub attempts-judged :
      (claims : Claims W) (s : Run W)
      → attempts h claims s ≡ (
        ok tt,
        record s { results = judged claims s.world s.results; world = world_after claims s.world },
      )
  unfolding attempts
  attempts-judged [] s = refl
  attempts-judged ((fid, body) ∷ rest) s =
      let s' = record s {
        results = insert fid (verdict h (body s.world).0) s.results;
        world = (body s.world).1;
      } in
      ground (arith, attempt-verdict h fid body s, attempts-judged rest s')

  lookup-judged_other :
      (k : String) (claims : Claims W) (w : W) (fs : Fields)
      → is_listed k claims ≡ false
      → lookup k (judged claims w fs) ≡ lookup k fs
  lookup-judged_other k [] w fs e = refl
  lookup-judged_other k ((fid, body) ∷ rest) w fs e =
      let v = verdict h (body w).0 in
      ground
        (arith, lookup-insert fid k v fs, lookup-judged_other k rest (body w).1 (insert fid v fs))

  -- The entry of a feature that is not listed again comes from its part of the list.
  lookup-judged :
      (before : Claims W) (fid : String) (body : Stateful W (String × String)) (after : Claims W)
      (w : W) (fs : Fields)
      → is_listed fid after ≡ false
      → lookup fid (judged (before ++ (fid, body) ∷ after) w fs)
        ≡ some (verdict h (body (world_after before w)).0)
  lookup-judged [] fid body after w fs last =
      let v = verdict h (body w).0 in
      ground (
        arith,
        eq_iff fid fid,
        lookup-insert fid fid v fs,
        lookup-judged_other fid after (body w).1 (insert fid v fs) last,
      )
  lookup-judged ((k, other) ∷ before) fid body after w fs last =
      lookup-judged before fid body after (other w).1 (insert k (verdict h (other w).0) fs) last

module _ {W : Type 0} (h : Harness W) (settings : Settings) (timeout : ℕ) (s : Run W) where
  -- The world in which the core is launched, and the one in which the client is connected.
  abbrev pub launched : W
  launched = (h.launch settings s.world).1

  abbrev pub connected : W
  connected = (h.connect timeout launched).1

  -- What `main` leaves if the core is launched and the client connects.
  abbrev pub done : Claims W → Run W
  done claims =
      let results = judged h claims connected s.results in
      record {
        results = results;
        printed = s.printed ++ h.dumps (obj (field "results" (obj results) end)) ∷ [];
        world = h.stop (h.close (world_after claims connected));
      }

  pub probe_main-done :
      (claims : Claims W)
      → (h.launch settings s.world).0 ≡ ok tt
      → (h.connect timeout launched).0 ≡ ok tt
      → probe_main h settings timeout claims s ≡ (ok tt, done claims)
  unfolding probe_main in_core print_results
  probe_main-done claims up there =
      ground (arith, up, there, attempts-judged h claims (record s { world = connected }))

  -- For a main of the plain form (probe_main: the features side by side, each in a try of its own):
  -- if the core is launched and the client connects, it ends, and the feature at each place of its
  -- list, if it is not listed again behind, has the entry that its own part gives in the world that
  -- the parts before it have left, however those have ended.
  pub probe_main-verdict :
      (before : Claims W) (fid : String) (body : Stateful W (String × String)) (after : Claims W)
      → is_listed fid after ≡ false
      → (h.launch settings s.world).0 ≡ ok tt
      → (h.connect timeout launched).0 ≡ ok tt
      → let claims = before ++ (fid, body) ∷ after in
        ((probe_main h settings timeout claims s).0 ≡ ok tt)
        × (lookup fid (probe_main h settings timeout claims s).1.results
            ≡ some (verdict h (body (world_after before connected)).0))
  probe_main-verdict before fid body after last up there =
      let e = probe_main-done (before ++ (fid, body) ∷ after) up there in
      rw e (refl, lookup-judged h before fid body after connected s.results last)

  -- For a `main` of the plain form (`probe_main`: the features side by side, each in a `try` of its
  -- own): if the core is launched and the client connects, it calls `print` once, with the text of
  -- its results, and leaves the core stopped, whatever its features do.
  pub probe_main-prints :
      (claims : Claims W)
      → (h.launch settings s.world).0 ≡ ok tt
      → (h.connect timeout launched).0 ≡ ok tt
      → let s' = (probe_main h settings timeout claims s).1 in
        (s'.printed ≡ s.printed ++ h.dumps (obj (field "results" (obj s'.results) end)) ∷ [])
        × (s'.world ≡ h.stop (h.close (world_after claims connected)))
  probe_main-prints claims up there = rw (probe_main-done claims up there) (refl, refl)

  -- For a `main` of the plain form (`probe_main`: the features side by side, each in a `try` of its
  -- own): if the core is not launched, or it is and the client does not connect, it raises that
  -- exception, records and prints nothing, and a core that was launched is stopped.
  pub probe_main_refused :
      (claims : Claims W) (e : Exception)
      → ((h.launch settings s.world).0 ≡ err e)
        ⊎ (((h.launch settings s.world).0 ≡ ok tt) × ((h.connect timeout launched).0 ≡ err e))
      → let (r, s') = probe_main h settings timeout claims s in
        (r ≡ err e)
        × (s'.results ≡ s.results)
        × (s'.printed ≡ s.printed)
        × (s'.world
            ≡ elim (h.launch settings s.world).0 [ err _ ↦ launched | ok _ ↦ h.stop connected ])
  unfolding probe_main in_core
  probe_main_refused claims e (inl down) = ground arith
  probe_main_refused claims e (inr (up, away)) = ground arith
