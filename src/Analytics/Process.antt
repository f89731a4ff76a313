-- ===== src/Analytics/Process.antt =====
-- services/analytics/src/analytics: `process_cycle` of pipeline.py, and `_process_event` and the loop
-- of main.py.
use battery_lab_sim.Prelude.{ℕ, String, Option, none, some, List, [], ◌∷◌, ◌++◌, if◌then◌else◌}
use battery_lab_sim.Prelude.Float.{Float}
use battery_lab_sim.Prelude.Attempt.{Failure, other_error, Attempt, returned, raised}
use battery_lab_sim.Analytics.{Numerics}
use battery_lab_sim.Analytics.Pipeline.{CycleFeatures, compute_features}
use battery_lab_sim.Analytics.Tables.{
  AnomalyAlert, Results, Tables, fetch_step_intervals, time_window, previous_r0, upsert_features,
  fetch_cycle_telemetry,
}

pub record Settings (R : Type 0) : Type 0 where
  pub bin_mv : ℕ
  pub peak_height : R
  pub r0_jump_threshold_pct : R

pub record Event : Type 0 where
  pub experiment_id : String
  pub chassis_id : ℕ
  pub channel_idx : ℕ
  pub cycle_index : ℕ

-- The calls of `process_cycle` on the databases.
pub data Call : Type 0 where
  read_steps read_telemetry read_previous write_features write_alert : Call

-- The first of the reads that raises.
abbrev pub read_fault : (Call → Option Failure) → Option Failure
read_fault fault = elim (fault read_steps) [
  | some e ↦ some e
  | none ↦ elim (fault read_telemetry) [ some e ↦ some e | none ↦ fault read_previous ]
]

module _ {R : Type 0} ⦃fl : Float R⦄ where
  -- The alert, if there are both resistances and the jump is above the threshold.
  unfoldable pub anomaly :
      Settings R → Event → Option R → Option R → Option R → Option (AnomalyAlert R)
  anomaly settings event (some prev) (some r0) (some jump) =
      if fl.lt settings.r0_jump_threshold_pct jump
      then some (record {
        chassis_id = event.chassis_id;
        channel_idx = event.channel_idx;
        jump_pct = jump;
        r0_now = r0;
        r0_prev = prev;
      })
      else none
  anomaly settings event _ _ _ = none

  -- `emit_anomaly_alert` of an anomaly, and the return of the features.
  unfoldable pub emit_anomaly :
      (Call → Option Failure)
      → Option (AnomalyAlert R)
      → CycleFeatures R
      → Results R
      → Attempt (Option (CycleFeatures R)) × Results R
  emit_anomaly fault none f r = (returned (some f), r)
  emit_anomaly fault (some alert) f r = elim (fault write_alert) [
    | some e ↦ (raised e, r)
    | none ↦ (returned (some f), record r { alerts = r.alerts ++ alert ∷ [] })
  ]

  -- What follows the computation.
  unfoldable pub write_results :
      Numerics R
      → Settings R
      → (Call → Option Failure)
      → Event
      → Option R
      → Option (CycleFeatures R)
      → Results R
      → Attempt (Option (CycleFeatures R)) × Results R
  unfolding upsert_features anomaly emit_anomaly
  write_results np settings fault event prev none r = (returned none, r)
  write_results np settings fault event prev (some f) r = elim (fault write_features) [
    | some e ↦ (raised e, r)
    | none ↦
        emit_anomaly fault (anomaly settings event prev f.r0_ohm f.r0_jump_pct) f
          (upsert_features np f r)
  ]

  -- The features that an event's tables give, with the resistance before.
  unfoldable pub computed :
      Numerics R → Settings R → Event → Tables R → Option R → Option (CycleFeatures R)
  unfolding fetch_step_intervals time_window fetch_cycle_telemetry compute_features
  computed np settings event t prev =
      let intervals = fetch_step_intervals event.experiment_id event.cycle_index t in
      let rows =
        fetch_cycle_telemetry np event.chassis_id event.channel_idx event.cycle_index
          (time_window intervals) t in
      compute_features np rows event.experiment_id event.cycle_index prev settings.bin_mv
        settings.peak_height intervals

  unfoldable pub process_cycle :
      Numerics R
      → Settings R
      → (Call → Option Failure)
      → Event
      → Tables R
      → Results R
      → Attempt (Option (CycleFeatures R)) × Results R
  unfolding previous_r0 computed write_results
  process_cycle np settings fault event t r = elim (read_fault fault) [
    | some e ↦ (raised e, r)
    | none ↦
        let prev = previous_r0 event.experiment_id event.cycle_index r.features in
        write_results np settings fault event prev (computed np settings event t prev) r
  ]

-- A payload, by what `json.loads`, the check of its fields and `int` make of it.
pub data Payload : Type 0 where
  not_json missing_fields not_object bad_number : Payload
  complete : Event → Payload

-- `except (asyncpg.PostgresError, OSError)`: what goes on.
abbrev pub escaping : {A : Type 0} → Attempt A → Option Failure
escaping (raised other_error) = some other_error
escaping _ = none

module _ {R : Type 0} ⦃fl : Float R⦄ where
  unfoldable pub process_event :
      Numerics R
      → Settings R
      → (Call → Option Failure)
      → Payload
      → Tables R
      → Results R
      → Option Failure × Results R
  unfolding process_cycle
  process_event np settings fault not_json t r = (none, r)
  process_event np settings fault missing_fields t r = (none, r)
  process_event np settings fault not_object t r = (some other_error, r)
  process_event np settings fault bad_number t r = (some other_error, r)
  process_event np settings fault (complete event) t r =
      let (result, r') = process_cycle np settings fault event t r in (escaping result, r')

  -- The loop of `_run`, on the payloads that come, with the tables and the failures then. An
  -- exception that escapes ends it.
  unfoldable pub consume :
      Numerics R
      → Settings R
      → List (Payload × Tables R × (Call → Option Failure))
      → Results R
      → Option Failure × Results R
  unfolding process_event
  consume np settings [] r = (none, r)
  consume np settings ((payload, t, fault) ∷ msgs) r =
      let (failure, r') = process_event np settings fault payload t r in
      elim failure [ some e ↦ (some e, r') | none ↦ consume np settings msgs r' ]
