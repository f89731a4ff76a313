-- ===== src/Watchdog/Fleet/Rollup.antt =====
-- The fleet alert is raised once for a burst of failures, and again after a failed poll.
use battery_lab_sim.Prelude.{
  ℕ, ◌≤◌, ◌<◌, ◌≡◌, refl, true, false, Option, none, some, List, [], ◌∷◌, arith, All, if◌then◌else◌,
}
use battery_lab_sim.Prelude.Dict.{lookup, insert, lookup-insert, lookup-erase}
use battery_lab_sim.Prelude.Float.{Float}
use battery_lab_sim.Watchdog.Dedupe.{
  AlertKey, AlertKey_eq, mass_failure, heartbeat_stale, EdgeTrigger, is_true,
}
use battery_lab_sim.Watchdog.Fleet.{
  mass_failure_alert, stale_alert, fleet_monitor, heartbeat_check, session_start,
}

abbrev IsBurst : ℕ → Option ℕ → Type 0
IsBurst threshold none = ⊥
IsBurst threshold (some n) = threshold ≤ n

still_quiet :
    (threshold : ℕ) (polls : List (Option ℕ)) (edge : EdgeTrigger AlertKey)
    → is_true (lookup mass_failure edge) ≡ true
    → All (IsBurst threshold) polls
    → (fleet_monitor threshold polls edge).0 ≡ []
unfolding fleet_monitor
still_quiet threshold [] edge h all = refl
still_quiet threshold (none ∷ polls) edge h all = absurd all.0
still_quiet threshold (some n ∷ polls) edge h all = ground (
  arith,
  all.0,
  still_quiet threshold polls (insert mass_failure true edge),
  lookup-insert mass_failure mass_failure true edge,
)

-- If the last condition was false and every poll of a sequence counts at least the threshold, the
-- sequence raises exactly one alert.
pub burst-alerts_once :
    (threshold n : ℕ) (polls : List (Option ℕ)) (edge : EdgeTrigger AlertKey)
    → is_true (lookup mass_failure edge) ≡ false
    → threshold ≤ n
    → All (IsBurst threshold) polls
    → (fleet_monitor threshold (some n ∷ polls) edge).0 ≡ mass_failure_alert ∷ []
unfolding fleet_monitor
burst-alerts_once threshold n polls edge clear h all = ground (
  arith,
  still_quiet threshold polls (insert mass_failure true edge),
  lookup-insert mass_failure mass_failure true edge,
)

-- If the last condition was false and the threshold is positive, two polls that count at least the
-- threshold with a failed one between them raise two alerts: the failed poll counts as zero
-- failures.
pub failed_poll-alerts_twice :
    (threshold m n : ℕ) (edge : EdgeTrigger AlertKey)
    → is_true (lookup mass_failure edge) ≡ false
    → 0 < threshold
    → threshold ≤ m
    → threshold ≤ n
    → (fleet_monitor threshold (some m ∷ none ∷ some n ∷ []) edge).0
      ≡ mass_failure_alert ∷ mass_failure_alert ∷ []
unfolding fleet_monitor
failed_poll-alerts_twice threshold m n edge clear p h k =
    let edge1 = insert mass_failure true edge in
    let edge2 = insert mass_failure false edge1 in
    ground (
      arith,
      lookup-insert mass_failure mass_failure true edge,
      lookup-insert mass_failure mass_failure false edge1,
    )

module _ {R : Type 0} ⦃fl : Float R⦄ where
  -- A silence longer than the threshold is alerted in the first check after a connection, whatever
  -- was alerted before it, and a shorter one is not.
  pub heartbeat_check-session_start :
      (threshold_s last_rx now : R) (edge : EdgeTrigger AlertKey)
      → (heartbeat_check threshold_s last_rx now (session_start edge)).0
        ≡ (if fl.lt threshold_s (fl.sub now last_rx) then stale_alert ∷ [] else [])
  unfolding heartbeat_check session_start
  heartbeat_check-session_start threshold_s last_rx now edge =
      ground (arith, lookup-erase heartbeat_stale heartbeat_stale edge)
