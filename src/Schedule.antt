-- ===== src/Schedule.antt =====
-- libs/batterylab/src/batterylab/schedule.py: the schedule's data, its validators and the helpers of
-- the executor. YAML and pydantic's own checks of types and unknown fields are outside the model; a
-- validator's `ValueError` is `none`.
pub mod Bench
pub mod Commands
pub mod Load
use battery_lab_sim.Prelude.{
  ℕ, ◌+◌, ◌≤◌, String, String_eq, Bool, true, false, not, ◌&&◌, ◌||◌, Option, none, some, List, [],
  ◌∷◌, map, leb, if◌then◌else◌, any,
}
use battery_lab_sim.Prelude.Float.{Float}
use battery_lab_sim.Models.{ChannelMode, cc, cv, rest}
use text.Mathlib.Text.{◌==◌ as str_eq}

pub record EndCondition (R : Type 0) : Type 0 where
  pub voltage_v_above : Option R
  pub voltage_v_below : Option R
  pub current_a_below_c_rate : Option R
  pub max_duration_s : Option R

-- `RestStep | CCStep | CVStep`
pub data Step (R : Type 0) : Type 0 where
  rest_step : (name : String) (duration_s : R) → Step R
  cc_step : (name : String) (rate_c : R) (end_when : EndCondition R) → Step R
  cv_step : (name : String) (voltage_v : R) (end_when : EndCondition R) → Step R

abbrev pub step_name : {R : Type 0} → Step R → String
step_name (rest_step name duration_s) = name
step_name (cc_step name rate_c end_when) = name
step_name (cv_step name voltage_v end_when) = name

-- The chamber's settings before the first cycle.
pub record ChamberConfig (R : Type 0) : Type 0 where
  pub setpoint_c : R
  pub soak_seconds : R

pub record Schedule (R : Type 0) : Type 0 where
  pub schedule_id : String
  pub chemistry : String
  pub chassis : List ℕ
  pub channels_per_chassis : ℕ
  pub chamber : ChamberConfig R
  pub steps : List (Step R)
  pub repeat : ℕ

-- Whether `names` are distinct: `len(names) == len(set(names))`.
unfoldable pub all_distinct : List String → Bool
all_distinct [] = true
all_distinct (n ∷ ns) = not (any (str_eq n) ns) && all_distinct ns

-- `_at_least_one_step`
unfoldable pub valid_steps : {R : Type 0} → List (Step R) → Bool
unfolding all_distinct
valid_steps [] = false
valid_steps (s ∷ steps) = all_distinct (map step_name (s ∷ steps))

module _ {R : Type 0} ⦃fl : Float R⦄ where
  -- A charge rate above the chemistry's ceiling is clipped to it.
  unfoldable pub clip_rate : R → Option R → R
  clip_rate rate_c none = rate_c
  clip_rate rate_c (some ceiling) = if fl.lt ceiling rate_c then ceiling else rate_c

  unfoldable pub step_to_command : Step R → R → Option R → ChannelMode × R
  unfolding clip_rate
  step_to_command (rest_step name duration_s) capacity ceiling = (rest, fl.lit 0 0)
  step_to_command (cc_step name rate_c end_when) capacity ceiling =
      (cc, fl.mul (fl.neg (clip_rate rate_c ceiling)) capacity)
  step_to_command (cv_step name voltage_v end_when) capacity ceiling = (cv, voltage_v)

  -- A limit that is not None and is met.
  abbrev pub met : Option R → (R → Bool) → Bool
  met none test = false
  met (some limit) test = test limit

  unfoldable pub condition_met : EndCondition R → R → R → R → R → Bool
  condition_met cond voltage_v current_a elapsed_s capacity =
      met cond.voltage_v_above (λ limit. fl.le limit voltage_v)
      || met cond.voltage_v_below (λ limit. fl.le voltage_v limit)
      || met cond.current_a_below_c_rate (λ rate. fl.lt (fl.abs current_a) (fl.mul rate capacity))
      || met cond.max_duration_s (λ limit. fl.le limit elapsed_s)

  unfoldable pub end_condition_met : Step R → R → R → R → R → Bool
  unfolding condition_met
  end_condition_met (rest_step name duration_s) voltage_v current_a elapsed_s capacity =
      fl.le duration_s elapsed_s
  end_condition_met (cc_step name rate_c cond) voltage_v current_a elapsed_s capacity =
      condition_met cond voltage_v current_a elapsed_s capacity
  end_condition_met (cv_step name target cond) voltage_v current_a elapsed_s capacity =
      condition_met cond voltage_v current_a elapsed_s capacity
