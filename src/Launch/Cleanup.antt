-- ===== src/Launch/Cleanup.antt =====
-- What `running_core` leaves behind, and when its body runs.
use claude_studio.Prelude.{
  ℕ, zero, suc, ◌+◌, ◌<◌, ◌≡◌, refl, ap, ◌∙◌, true, false, none, List, [], ◌∷◌, ◌++◌, arith,
  append-nil,
}
use claude_studio.Python.Result.{Result, ok, err}
use claude_studio.Launch.{
  Settings, Effect, started, after_loop, sleep, open_log_file, Site, wait_loop, ready, cleanup,
  prepare, running_core,
}

-- The pauses of the loop that waits for the socket.
abbrev pub pauses : ℕ → List Effect
pauses zero = []
pauses (suc k) = sleep 100 ∷ pauses k

-- At the checks `i`, ..., `i + k - 1` there is no socket and the process runs, and then the socket
-- is there.
abbrev pub AppearsAfter : Site → ℕ → ℕ → Type 0
AppearsAfter site zero i = site.appears i ≡ true
AppearsAfter site (suc k) i =
    (site.appears i ≡ false) × (site.polled i ≡ none) × AppearsAfter site k (i + 1)

wait_loop-appears :
    (site : Site) (at : Settings) (k rounds i : ℕ)
    → AppearsAfter site k i
    → k < rounds
    → wait_loop site at rounds i ≡ (ok (i + k + 1), pauses k)
unfolding wait_loop
wait_loop-appears site at k zero i here h = absurd (omega arith)
wait_loop-appears site at zero (suc rounds) i here h =
    simp here (ap (λ n. (ok n, [])) (omega arith))
wait_loop-appears site at (suc k) (suc rounds) i (gone, runs, here) h =
    let later = wait_loop-appears site at k rounds (i + 1) here (omega arith) in
    simp (gone, runs, later) (ap (λ n. (ok n, sleep 100 ∷ pauses k)) (omega arith))

module _ {A : Type 0} (site : Site) (at : Settings) (body : Result A × List Effect)
    (there : site.has_core ≡ true) (starts : site.start_fails ≡ none) where
  -- What the body gives, if it runs.
  abbrev pub ran : Result (Unit {0}) → Result A × List Effect
  ran (ok _) = body
  ran (err e) = (err e, [])

  after :
      (r : Result (Unit {0}))
      → (ready site at).0 ≡ r
      → running_core site at body ≡ (
        (ran r).0,
        prepare site at
            ++ open_log_file at
            ++ started site at ∷ (ready site at).1
            ++ (ran r).1
            ++ cleanup site at,
      )
  unfolding running_core
  after (ok t) e = simp (there, starts, e) refl
  after (err x) e = simp (there, starts, e, append-nil) refl

  -- If the core's binary is there and the process starts, then the process is terminated and waited
  -- for, killed if it does not end, the log is closed and the temporary home removed, as the last
  -- effects, however the waiting for the socket and the body end; the body runs exactly if the
  -- socket is ready, and then its result is the whole's.
  running_core-cleanup : running_core site at body ≡ (
    (ran (ready site at).0).0,
    prepare site at
        ++ open_log_file at
        ++ started site at ∷ (ready site at).1
        ++ (ran (ready site at).0).1
        ++ cleanup site at,
  )
  running_core-cleanup = after (ready site at).0 refl

  -- If the core's binary is there, the process starts, and the socket is there after k pauses, k
  -- below 100, before the process has ended, and again at the next check, then the body runs: its
  -- result is the whole's, and its effects come after k pauses of 100 ms and one of 200 ms and
  -- before the cleanup.
  pub running_core-runs :
      (k : ℕ)
      → k < 100
      → AppearsAfter site k 0
      → site.appears (k + 1) ≡ true
      → running_core site at body ≡ (
        body.0,
        prepare site at
            ++ open_log_file at
            ++ started site at ∷ (pauses k ++ sleep 200 ∷ [])
            ++ body.1
            ++ cleanup site at,
      )
  unfolding ready
  running_core-runs k few here still =
      let waited = wait_loop-appears site at k 100 0 here few in
      let same_check : 0 + k + 1 ≡ k + 1 = omega arith in
      let is_ready : ready site at ≡ (ok tt, pauses k ++ sleep 200 ∷ []) =
        ap (after_loop site) waited
        ∙ ap (λ n. after_loop site (ok n, pauses k)) same_check
        ∙ rw still refl in
      running_core-cleanup ∙ simp is_ready refl
