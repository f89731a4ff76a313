-- ===== src/Schedule/Load.antt =====
-- libs/batterylab/src/batterylab/schedule.py: the validation and the loading of a schedule. The file, the
-- YAML parser, pydantic's checks of types and unknown fields, and git are parameters.
pub mod Runnable
use battery_lab_sim.Prelude.{
  ℕ, String, String_eq, Bool, true, false, not, ◌&&◌, Option, none, some, List, [], ◌∷◌, ◌==◌, leb,
  if◌then◌else◌,
}
use battery_lab_sim.Prelude.Int.{ℤ, pos, negsuc, pos_part, leb_ℤ}
use battery_lab_sim.Prelude.Float.{Float}
use battery_lab_sim.Schedule.{Step, ChamberConfig, Schedule, valid_steps}
use battery_lab_sim.Schedule.Bench.{ChassisSpec, normalize}
use text.Mathlib.Text.{◌==◌ as str_eq}

abbrev pub max_channels_per_chassis : ℕ
max_channels_per_chassis = 32

-- What pydantic's own checks let through, before the constraints and validators of the models.
pub record RawSchedule (R : Type 0) : Type 0 where
  pub schedule_id : String
  pub chemistry : String
  pub chassis : ChassisSpec
  pub channels_per_chassis : ℤ
  pub chamber : Option (ChamberConfig R)
  pub steps : List (Step R)
  pub repeat : ℤ

-- `Field(ge=1)`, and `Field(ge=1, le=MAX_CHANNELS_PER_CHASSIS)`
unfoldable pub valid_repeat : ℤ → Bool
valid_repeat repeat = leb_ℤ (pos 1) repeat

unfoldable pub valid_channels : ℤ → Bool
valid_channels count = leb_ℤ (pos 1) count && leb_ℤ count (pos max_channels_per_chassis)

-- What came of a load: the schedule and the hash, a `ScheduleError`, or an exception of the file that is
-- no `OSError`, such as a wrong encoding.
pub data Loaded (R : Type 0) : Type 0 where
  loaded : Schedule R → String → Loaded R
  schedule_error : Loaded R
  unreadable : Loaded R

pub data FileText : Type 0 where
  body : String → FileText
  os_error : FileText
  other_error : FileText

-- `git` is `none` where it cannot be run or takes too long, or its return code and its output,
-- stripped.
unfoldable pub git_sha_of : Option (ℕ × String) → String
git_sha_of none = "uncommitted"
git_sha_of (some (code, sha)) = if code == 0 && not (str_eq sha "") then sha else "uncommitted"

module _ {R : Type 0} ⦃fl : Float R⦄ where
  -- `ChamberConfig()`
  unfoldable pub chamber_or_default : Option (ChamberConfig R) → ChamberConfig R
  chamber_or_default none = record { setpoint_c = fl.lit 250 1; soak_seconds = fl.lit 0 0 }
  chamber_or_default (some chamber) = chamber

  abbrev pub schedule_of : RawSchedule R → List ℕ → Schedule R
  schedule_of raw chassis = record {
    schedule_id = raw.schedule_id;
    chemistry = raw.chemistry;
    chassis = chassis;
    channels_per_chassis = pos_part raw.channels_per_chassis;
    chamber = chamber_or_default raw.chamber;
    steps = raw.steps;
    repeat = pos_part raw.repeat;
  }

  abbrev pub if_valid : Bool → Schedule R → Option (Schedule R)
  if_valid valid schedule = if valid then some schedule else none

  abbrev pub accept : RawSchedule R → Option (List ℕ) → Option (Schedule R)
  accept raw none = none
  accept raw (some chassis) =
      if_valid
        (valid_channels raw.channels_per_chassis
          && valid_steps raw.steps
          && valid_repeat raw.repeat)
        (schedule_of raw chassis)

  -- `Schedule.model_validate`; a `ValidationError` is `none`.
  unfoldable pub model_validate : RawSchedule R → Option (Schedule R)
  unfolding chamber_or_default normalize valid_steps valid_channels valid_repeat
  model_validate raw = accept raw (normalize raw.chassis)

  abbrev pub loaded_or_error : Option (Schedule R) → String → Loaded R
  loaded_or_error none sha = schedule_error
  loaded_or_error (some schedule) sha = loaded schedule sha

  abbrev pub validate_or_error : Option (RawSchedule R) → String → Loaded R
  validate_or_error none sha = schedule_error
  validate_or_error (some raw) sha = loaded_or_error (model_validate raw) sha

  module _ {Y : Type 0} (yaml : String → Option Y) (typed : Y → Option (RawSchedule R)) where
    abbrev pub parse_or_error : Option Y → String → Loaded R
    parse_or_error none sha = schedule_error
    parse_or_error (some y) sha = validate_or_error (typed y) sha

    -- `load_schedule`, on the text of the file and the answer of git.
    unfoldable pub load_schedule : FileText → Option (ℕ × String) → Loaded R
    unfolding git_sha_of model_validate
    load_schedule os_error git = schedule_error
    load_schedule other_error git = unreadable
    load_schedule (body text) git = parse_or_error (yaml text) (git_sha_of git)
