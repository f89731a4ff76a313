-- ===== src/Analytics/Pipeline.antt =====
-- services/analytics/src/analytics/pipeline.py: the features of one cycle, without its statements. A
-- time is in epoch seconds.
use battery_lab_sim.Prelude.{
  ℕ, suc, String, Bool, true, false, ◌&&◌, ◌||◌, Option, none, some, List, [], ◌∷◌, map, any, ltb,
  length, if◌then◌else◌,
}
use battery_lab_sim.Prelude.Float.{Float}
use battery_lab_sim.Analytics.{Sample, Numerics}
use battery_lab_sim.Analytics.Features.{
  DqDvPeak, float_zero, at, estimate_r0_ohm, r0_jump_pct, coulomb_count_ah, coulombic_efficiency,
  dq_dv_peaks,
}
use text.Mathlib.Text.{◌==◌ as str_eq}

-- (started_at, ended_at, step_name)
pub record StepInterval (R : Type 0) : Type 0 where
  pub started_at : R
  pub ended_at : R
  pub step_name : String

pub record CycleFeatures (R : Type 0) : Type 0 where
  pub experiment_id : String
  pub cycle_index : ℕ
  pub capacity_ah : Option R
  pub coulombic_eff : Option R
  pub peak_temp_c : Option R
  pub r0_ohm : Option R
  pub r0_jump_pct : Option R
  pub dq_dv_peaks : List (DqDvPeak R)

-- `CHARGE_STEPS`, `DISCHARGE_STEPS`, `CC_STEP` and `CV_STEP`
abbrev pub is_cc : String → Bool
is_cc name = str_eq name "cc_charge"

abbrev pub is_cv : String → Bool
is_cv name = str_eq name "cv_charge"

abbrev pub is_charge : String → Bool
is_charge name = is_cc name || is_cv name

abbrev pub is_discharge : String → Bool
is_discharge name = str_eq name "cc_discharge"

-- `xs[mask]`
unfoldable pub masked : {A : Type 0} → List Bool → List A → List A
masked (true ∷ mask) (x ∷ xs) = x ∷ masked mask xs
masked (false ∷ mask) (x ∷ xs) = masked mask xs
masked _ _ = []

-- `mask.any()`
abbrev pub any_true : List Bool → Bool
any_true mask = any (λ b. b) mask

-- `np.where(mask)[0][0]` and `np.where(mask)[0][-1]`, of a mask with a true
unfoldable pub first_true : List Bool → ℕ
first_true [] = 0
first_true (true ∷ mask) = 0
first_true (false ∷ mask) = suc (first_true mask)

unfoldable pub last_true : List Bool → ℕ
last_true [] = 0
last_true (b ∷ mask) = let rest = last_true mask in if any_true mask then suc rest else 0

module _ {R : Type 0} ⦃fl : Float R⦄ where
  abbrev pub is_within : R → StepInterval R → Bool
  is_within t interval = fl.le interval.started_at t && fl.le t interval.ended_at

  -- The label of one time: the first interval that contains it.
  unfoldable pub label : List (StepInterval R) → R → String
  label [] t = ""
  label (interval ∷ intervals) t =
      let rest = label intervals t in if is_within t interval then interval.step_name else rest

  unfoldable pub label_steps : List R → List (StepInterval R) → List String
  unfolding label
  label_steps times intervals = map (label intervals) times

  -- `step_intervals` if there are any, else the rows' own names.
  unfoldable pub step_names : List (Sample R) → List (StepInterval R) → List String
  unfolding label_steps
  step_names rows [] = map (λ r. r.step_name) rows
  step_names rows (i ∷ is) = label_steps (map (λ r. r.time) rows) (i ∷ is)

  -- `r[column] or 0.0`
  abbrev pub or_zero : Option R → R
  or_zero none = float_zero
  or_zero (some x) = x

  -- The resistance at the change from CC to CV.
  unfoldable pub transition_r0 : Numerics R → List Bool → List Bool → List R → List R → Option R
  unfolding first_true last_true estimate_r0_ohm at
  transition_r0 np cc_mask cv_mask voltage current =
      let last_cc_idx = last_true cc_mask in
      let first_cv_idx = first_true cv_mask in
      if any_true cc_mask && any_true cv_mask && ltb last_cc_idx first_cv_idx
      then some (
          estimate_r0_ohm np (at voltage last_cc_idx) (at voltage first_cv_idx)
            (at current last_cc_idx) (at current first_cv_idx))
      else none

  -- The jump, if both resistances are there.
  unfoldable pub jump_of : Numerics R → Option R → Option R → Option R
  unfolding r0_jump_pct
  jump_of np (some r0) (some prev) = some (r0_jump_pct np r0 prev)
  jump_of np _ _ = none

  unfoldable pub clean : Numerics R → Option R → Option R
  clean np none = none
  clean np (some x) = if np.is_finite x then some x else none

  -- What `compute_features` computes of ten rows or more.
  unfoldable pub features_of :
      Numerics R
      → List (Sample R)
      → String
      → ℕ
      → Option R
      → ℕ
      → R
      → List (StepInterval R)
      → CycleFeatures R
  unfolding step_names masked coulomb_count_ah coulombic_efficiency transition_r0 dq_dv_peaks
      jump_of clean
  features_of np rows experiment_id cycle_index prev_r0 bin_mv peak_height intervals =
      let times = map (λ r. r.time) rows in
      let voltage = map (λ r. or_zero r.voltage_v) rows in
      let current = map (λ r. or_zero r.current_a) rows in
      let temperature = map (λ r. or_zero r.temperature_c) rows in
      let names = step_names rows intervals in
      let discharge = map is_discharge names in
      let charge = map is_charge names in
      let r0 = transition_r0 np (map is_cc names) (map is_cv names) voltage current in
      record {
        experiment_id = experiment_id;
        cycle_index = cycle_index;
        capacity_ah = clean np (
            if any_true discharge
            then some
                (fl.abs (coulomb_count_ah np (masked discharge current) (masked discharge times)))
            else none);
        coulombic_eff = clean np (
            if any_true discharge && any_true charge
            then some (
                coulombic_efficiency np (masked discharge current) (masked discharge times)
                  (masked charge current) (masked charge times))
            else none);
        peak_temp_c = clean np (some (np.maximum temperature));
        r0_ohm = clean np r0;
        r0_jump_pct = clean np (jump_of np r0 prev_r0);
        dq_dv_peaks =
            if any_true charge
            then dq_dv_peaks np (masked charge voltage) (masked charge current)
                (masked charge times) bin_mv peak_height
            else [];
      }

  unfoldable pub compute_features :
      Numerics R
      → List (Sample R)
      → String
      → ℕ
      → Option R
      → ℕ
      → R
      → List (StepInterval R)
      → Option (CycleFeatures R)
  unfolding features_of
  compute_features np rows experiment_id cycle_index prev_r0 bin_mv peak_height intervals =
      if ltb (length rows) 10
      then none
      else some (features_of np rows experiment_id cycle_index prev_r0 bin_mv peak_height intervals)
