-- ===== src/Watchdog/Chassis.antt =====
-- services/watchdog/src/watchdog/chassis_monitor.py: the poll of the chassis watchdog registers. A
-- probe's answer is its status register, or `none` for an `OSError`.
pub mod Connection
pub mod Grace
use battery_lab_sim.Prelude.{
  ℕ, suc, ◌+◌, Bool, true, false, not, ◌&&◌, Option, none, some, List, [], ◌∷◌, ◌++◌, ◌==◌, leb,
  if◌then◌else◌,
}
use battery_lab_sim.Watchdog.Dedupe.{
  AlertKey, AlertKey_eq, chassis_tripped, chassis_unreachable, EdgeTrigger, update,
}
use battery_lab_sim.Watchdog.Alerts.{Alert, critical}

abbrev pub unreachable_alert : ℕ → Alert
unreachable_alert id = record {
  severity = critical;
  source = "watchdog.chassis";
  message = "chassis_unreachable";
  chassis_id = some id;
  channel_idx = none;
}

abbrev pub tripped_alert : ℕ → Alert
tripped_alert id = record {
  severity = critical;
  source = "watchdog.chassis";
  message = "chassis_watchdog_tripped";
  chassis_id = some id;
  channel_idx = none;
}

abbrev when : Bool → Alert → List Alert
when b a = if b then a ∷ [] else []

-- The body of the loop for one probe: the alerts that it emits, and the edges after it.
unfoldable pub probe :
    Bool → ℕ → Option ℕ → EdgeTrigger AlertKey → List Alert × EdgeTrigger AlertKey
unfolding update
probe in_grace id none edge =
    let (fired, edge1) = update (chassis_unreachable id) true edge in
    let (ignored, edge2) = update (chassis_tripped id) false edge1 in
    (when (fired && not in_grace) (unreachable_alert id), edge2)
probe in_grace id (some status) edge =
    let (ignored, edge1) = update (chassis_unreachable id) false edge in
    let (fired, edge2) = update (chassis_tripped id) (status == 1) edge1 in
    (when (fired && not in_grace) (tripped_alert id), edge2)

-- One poll: every chassis with its answer.
unfoldable pub poll :
    Bool → List (ℕ × Option ℕ) → EdgeTrigger AlertKey → List Alert × EdgeTrigger AlertKey
unfolding probe
poll in_grace [] edge = ([], edge)
poll in_grace ((id, answer) ∷ probes) edge =
    let (now, edge') = probe in_grace id answer edge in
    let (later, edge'') = poll in_grace probes edge' in (now ++ later, edge'')

-- `chassis_monitor_loop`: `poll_count` polls are done, and a list of answers for each poll follows.
unfoldable pub monitor : ℕ → ℕ → List (List (ℕ × Option ℕ)) → EdgeTrigger AlertKey → List Alert
unfolding poll
monitor grace poll_count [] edge = []
monitor grace poll_count (answers ∷ polls) edge =
    let (alerts, edge') = poll (leb (poll_count + 1) grace) answers edge in
    alerts ++ monitor grace (poll_count + 1) polls edge'
