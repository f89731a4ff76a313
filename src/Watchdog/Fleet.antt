-- ===== src/Watchdog/Fleet.antt =====
-- services/watchdog/src/watchdog/fleet_monitor.py and heartbeat_monitor.py: the fleet roll-up and the
-- orchestrator's heartbeat.
pub mod Rollup
use battery_lab_sim.Prelude.{
  ℕ, Bool, true, false, Option, none, some, List, [], ◌∷◌, ◌++◌, leb, if◌then◌else◌,
}
use battery_lab_sim.Prelude.Float.{Float}
use battery_lab_sim.Watchdog.Dedupe.{
  AlertKey, AlertKey_eq, mass_failure, heartbeat_stale, EdgeTrigger, update, reset,
}
use battery_lab_sim.Watchdog.Alerts.{Alert, critical}

abbrev pub mass_failure_alert : Alert
mass_failure_alert = record {
  severity = critical;
  source = "watchdog.fleet";
  message = "mass_chassis_failure";
  chassis_id = none;
  channel_idx = none;
}

abbrev pub stale_alert : Alert
stale_alert = record {
  severity = critical;
  source = "watchdog.heartbeat";
  message = "orchestrator_heartbeat_stale";
  chassis_id = none;
  channel_idx = none;
}

-- `_count_recent_failures`: the database's count, or 0 on a `PostgresError`, here `none`.
unfoldable pub count_recent_failures : Option ℕ → ℕ
count_recent_failures none = 0
count_recent_failures (some n) = n

unfoldable pub fleet_monitor_step : ℕ → ℕ → EdgeTrigger AlertKey → List Alert × EdgeTrigger AlertKey
unfolding update
fleet_monitor_step threshold count edge =
    let (fired, edge') = update mass_failure (leb threshold count) edge in
    (if fired then mass_failure_alert ∷ [] else [], edge')

-- `fleet_monitor_loop`, on the answers of its polls.
unfoldable pub fleet_monitor :
    ℕ → List (Option ℕ) → EdgeTrigger AlertKey → List Alert × EdgeTrigger AlertKey
unfolding fleet_monitor_step count_recent_failures
fleet_monitor threshold [] edge = ([], edge)
fleet_monitor threshold (answer ∷ polls) edge =
    let (now, edge') = fleet_monitor_step threshold (count_recent_failures answer) edge in
    let (later, edge'') = fleet_monitor threshold polls edge' in (now ++ later, edge'')

module _ {R : Type 0} ⦃fl : Float R⦄ where
  -- One turn of `heartbeat_check_loop`; `last_rx` is the time of the last heartbeat.
  unfoldable pub heartbeat_check :
      R → R → R → EdgeTrigger AlertKey → List Alert × EdgeTrigger AlertKey
  unfolding update
  heartbeat_check threshold_s last_rx now edge =
      let (fired, edge') = update heartbeat_stale (fl.lt threshold_s (fl.sub now last_rx)) edge in
      (if fired then stale_alert ∷ [] else [], edge')

-- `_run_session` re-arms the heartbeat edge when it has connected.
unfoldable pub session_start : EdgeTrigger AlertKey → EdgeTrigger AlertKey
unfolding reset
session_start edge = reset heartbeat_stale edge
