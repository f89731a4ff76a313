-- ===== src/Examples/AnalyticsRuns.antt =====
-- The theorems on the analytics at concrete inputs. One number stands for NaN there.
use battery_lab_sim.Prelude.{
  ℕ, ◌<◌, ◌≡◌, refl, String, Bool, true, false, Option, none, some, List, [], ◌∷◌, length, All,
}
use battery_lab_sim.Prelude.Int.{ℤ, pos, negsuc}
use battery_lab_sim.Prelude.Float.{fixed_point}
use battery_lab_sim.Prelude.Attempt.{Failure, postgres_error}
use battery_lab_sim.Analytics.{Numerics}
use battery_lab_sim.Analytics.Pipeline.{CycleFeatures}
use battery_lab_sim.Analytics.Tables.{TelemetryRow, ExperimentStep, CycleKey, Results, Tables}
use battery_lab_sim.Analytics.Process.{
  Settings, Event, Call, write_alert, process_cycle, complete, consume,
}
use battery_lab_sim.Analytics.Replay.{process_cycle-rerun}
use battery_lab_sim.Analytics.Anomaly.{IsJump, consume-IsJump}
use battery_lab_sim.Examples.Samples.{whole}
use mathlib.Core.List.{Memᴰ}

abbrev is_number : ℤ → Bool
is_number (pos n) = true
is_number (negsuc n) = false

abbrev no_peaks : List ℤ → ℤ → ℤ → List (ℕ × ℤ)
no_peaks xs h p = []

no_peaks_lt :
    (xs : List ℤ) (h p : ℤ) (peak : ℕ × ℤ) → Memᴰ peak (no_peaks xs h p) → peak.0 < length xs
no_peaks_lt xs h p peak m = elim m [ ]

abbrev numerics : Numerics ℤ
numerics = record {
  nan = negsuc 0;
  is_finite = is_number;
  sum = λ xs. whole 1;
  maximum = λ xs. whole 1;
  arange = λ start stop step. [];
  digitize = λ x bins. 0;
  find_peaks = no_peaks;
  to_real = λ x. x;
  order_by_time = λ rows. rows;
  nan_not_finite = refl;
  find_peaks_lt = no_peaks_lt;
}

abbrev settings : Settings ℤ
settings = record { bin_mv = 10; peak_height = whole 1; r0_jump_threshold_pct = whole 20 }

abbrev event : Event
event = record { experiment_id = "exp"; chassis_id = 1; channel_idx = 2; cycle_index = 3 }

abbrev step_row : ℕ → String → ℕ → ℕ → ExperimentStep ℤ
step_row index name start end = record {
  experiment_id = "exp";
  cycle_index = 3;
  step_index = index;
  step_name = name;
  started_at = whole start;
  ended_at = some (whole end);
}

-- A second of charge at the time `t`.
abbrev second : ℕ → ℕ → ℕ → TelemetryRow ℤ
second t volts amperes = record {
  chassis_id = 1;
  channel_idx = 2;
  cycle_index = 3;
  sample = record {
    time = whole t;
    voltage_v = some (whole volts);
    current_a = some (whole amperes);
    temperature_c = none;
    step_name = "";
  };
}

abbrev tables : Tables ℤ
tables = record {
  telemetry =
      second 0 3 4
      ∷ second 1 3 4
      ∷ second 2 3 4
      ∷ second 3 3 4
      ∷ second 4 3 4
      ∷ second 5 5 2
      ∷ second 6 5 2
      ∷ second 7 5 2
      ∷ second 8 5 2
      ∷ second 9 5 2
      ∷ [];
  steps = step_row 0 "cc_charge" 0 4 ∷ step_row 1 "cv_charge" 5 9 ∷ [];
}

abbrev row_of : ℕ → Option ℤ → CycleKey × CycleFeatures ℤ
row_of cycle r0 = (
  record { experiment_id = "exp"; cycle_index = cycle },
  record {
    experiment_id = "exp";
    cycle_index = cycle;
    capacity_ah = none;
    coulombic_eff = none;
    peak_temp_c = none;
    r0_ohm = r0;
    r0_jump_pct = none;
    dq_dv_peaks = [];
  },
)

-- The cycle before had half an ohm.
abbrev before : Results ℤ
before = record { features = row_of 2 (some (pos 500000000)) ∷ []; alerts = [] }

-- The cycle before had no resistance, and the one before it had.
abbrev gap : Results ℤ
gap = record { features = row_of 1 (some (pos 500000000)) ∷ row_of 2 none ∷ []; alerts = [] }

abbrev no_fault : Call → Option Failure
no_fault c = none

abbrev no_alert : Call → Option Failure
no_alert write_alert = some postgres_error
no_alert c = none

process_cycle-rerun_example :
    (process_cycle numerics settings no_fault event tables
      (process_cycle numerics settings no_alert event tables before).1).1.features
    ≡ (process_cycle numerics settings no_fault event tables before).1.features
process_cycle-rerun_example =
    process_cycle-rerun numerics settings no_alert no_fault event tables before (λ c. refl)

consume-IsJump_example :
    All
      (IsJump numerics settings)
      (consume numerics settings ((complete event, tables, no_fault) ∷ []) before).1.alerts
consume-IsJump_example =
    consume-IsJump numerics settings ((complete event, tables, no_fault) ∷ []) before tt
