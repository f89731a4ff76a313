-- ===== src/Analytics/Tables.antt =====
-- services/analytics/src/analytics/pipeline.py: the tables, and the statements that read and write them.
use battery_lab_sim.Prelude.{
  ℕ, ◌≡◌, ◌↔◌, String, Bool, true, ◌&&◌, Option, none, some, List, [], ◌∷◌, ◌==◌, ltb, leb, arith,
  Eq, if◌then◌else◌,
}
use battery_lab_sim.Prelude.Float.{Float}
use battery_lab_sim.Prelude.Dict.{insert}
use battery_lab_sim.Analytics.{Sample, Numerics}
use battery_lab_sim.Analytics.Pipeline.{StepInterval, CycleFeatures}
use text.Mathlib.Text.{◌==◌ as str_eq}
use text.Mathlib.TextEquality.{eq_iff}

-- A row of `telemetry`.
pub record TelemetryRow (R : Type 0) : Type 0 where
  pub chassis_id : ℕ
  pub channel_idx : ℕ
  pub cycle_index : ℕ
  pub sample : Sample R

-- A row of `experiment_steps`.
pub record ExperimentStep (R : Type 0) : Type 0 where
  pub experiment_id : String
  pub cycle_index : ℕ
  pub step_index : ℕ
  pub step_name : String
  pub started_at : R
  pub ended_at : Option R

-- The primary key of `cycle_features`.
pub record CycleKey : Type 0 where
  pub experiment_id : String
  pub cycle_index : ℕ

abbrev pub cycle_key_beq : CycleKey → CycleKey → Bool
cycle_key_beq j k = str_eq j.experiment_id k.experiment_id && j.cycle_index == k.cycle_index

pub cycle_key_beq_iff : (j k : CycleKey) → (cycle_key_beq j k ≡ true) ↔ (j ≡ k)
cycle_key_beq_iff j k = ground (arith, eq_iff j.experiment_id k.experiment_id)

instance abbrev pub CycleKey_eq : Eq CycleKey
CycleKey_eq = record { beq = cycle_key_beq; beq_iff = cycle_key_beq_iff }

-- A row of `alerts`, with the numbers that its message prints.
pub record AnomalyAlert (R : Type 0) : Type 0 where
  pub chassis_id : ℕ
  pub channel_idx : ℕ
  pub jump_pct : R
  pub r0_now : R
  pub r0_prev : R

-- What the service writes.
pub record Results (R : Type 0) : Type 0 where
  pub features : List (CycleKey × CycleFeatures R)
  pub alerts : List (AnomalyAlert R)

-- What it reads.
pub record Tables (R : Type 0) : Type 0 where
  pub telemetry : List (TelemetryRow R)
  pub steps : List (ExperimentStep R)

module _ {R : Type 0} where
  -- `ORDER BY step_index` of the steps of one cycle, which have distinct indexes.
  unfoldable pub insert_step : ExperimentStep R → List (ExperimentStep R) → List (ExperimentStep R)
  insert_step s [] = s ∷ []
  insert_step s (t ∷ ts) =
      let rest = insert_step s ts in if leb s.step_index t.step_index then s ∷ t ∷ ts else t ∷ rest

  unfoldable pub fetch_steps : String → ℕ → List (ExperimentStep R) → List (ExperimentStep R)
  unfolding insert_step
  fetch_steps id cycle [] = []
  fetch_steps id cycle (s ∷ steps) =
      let rest = fetch_steps id cycle steps in
      if str_eq s.experiment_id id && s.cycle_index == cycle then insert_step s rest else rest

  -- The steps with an `ended_at`, as intervals.
  unfoldable pub intervals_of : List (ExperimentStep R) → List (StepInterval R)
  intervals_of [] = []
  intervals_of (s ∷ steps) =
      let rest = intervals_of steps in
      elim s.ended_at [
        | none ↦ rest
        | some end ↦
            record { started_at = s.started_at; ended_at = end; step_name = s.step_name } ∷ rest
      ]

  unfoldable pub fetch_step_intervals : String → ℕ → Tables R → List (StepInterval R)
  unfolding fetch_steps intervals_of
  fetch_step_intervals id cycle t = intervals_of (fetch_steps id cycle t.steps)

  -- `(step_intervals[0][0], step_intervals[-1][1])`
  unfoldable pub time_window : List (StepInterval R) → Option (R × R)
  time_window [] = none
  time_window (i ∷ []) = some (i.started_at, i.ended_at)
  time_window (i ∷ j ∷ is) = elim (time_window (j ∷ is)) [
    | none ↦ none
    | some (start, end) ↦ some (i.started_at, end)
  ]

  -- The row with the greatest cycle index below `cycle`.
  unfoldable pub latest_before :
      String → ℕ → List (CycleKey × CycleFeatures R) → Option (ℕ × Option R)
  latest_before id cycle [] = none
  latest_before id cycle ((k, f) ∷ rows) =
      let rest = latest_before id cycle rows in
      if str_eq k.experiment_id id && ltb k.cycle_index cycle
      then elim rest [
        | none ↦ some (k.cycle_index, f.r0_ohm)
        | some best ↦ if ltb best.0 k.cycle_index then some (k.cycle_index, f.r0_ohm) else some best
      ]
      else rest

  unfoldable pub previous_r0 : String → ℕ → List (CycleKey × CycleFeatures R) → Option R
  unfolding latest_before
  previous_r0 id cycle rows = elim (latest_before id cycle rows) [
    | none ↦ none
    | some best ↦ best.1
  ]

  abbrev pub key_of : CycleFeatures R → CycleKey
  key_of f = record { experiment_id = f.experiment_id; cycle_index = f.cycle_index }

  abbrev pub real_of : Numerics R → Option R → Option R
  real_of np none = none
  real_of np (some x) = some (np.to_real x)

  -- The row as the REAL columns hold it.
  unfoldable pub as_stored : Numerics R → CycleFeatures R → CycleFeatures R
  as_stored np f = record f {
    capacity_ah = real_of np f.capacity_ah;
    coulombic_eff = real_of np f.coulombic_eff;
    peak_temp_c = real_of np f.peak_temp_c;
    r0_ohm = real_of np f.r0_ohm;
    r0_jump_pct = real_of np f.r0_jump_pct;
  }

  -- `INSERT ... ON CONFLICT (experiment_id, cycle_index) DO UPDATE`
  unfoldable pub upsert_features : Numerics R → CycleFeatures R → Results R → Results R
  unfolding insert as_stored
  upsert_features np f r = record r { features = insert (key_of f) (as_stored np f) r.features }

module _ {R : Type 0} ⦃fl : Float R⦄ where
  abbrev pub is_between : Option (R × R) → ℕ → TelemetryRow R → Bool
  is_between none cycle row = row.cycle_index == cycle
  is_between (some (start, end)) cycle row =
      fl.le start row.sample.time && fl.le row.sample.time end

  unfoldable pub select_telemetry :
      ℕ → ℕ → ℕ → Option (R × R) → List (TelemetryRow R) → List (Sample R)
  select_telemetry chassis channel cycle window [] = []
  select_telemetry chassis channel cycle window (row ∷ rows) =
      let rest = select_telemetry chassis channel cycle window rows in
      if row.chassis_id == chassis && row.channel_idx == channel && is_between window cycle row
      then row.sample ∷ rest
      else rest

  unfoldable pub fetch_cycle_telemetry :
      Numerics R → ℕ → ℕ → ℕ → Option (R × R) → Tables R → List (Sample R)
  unfolding select_telemetry
  fetch_cycle_telemetry np chassis channel cycle window t =
      np.order_by_time (select_telemetry chassis channel cycle window t.telemetry)
