-- ===== src/Examples/ScheduleRuns.antt =====
-- The theorems on a bench at concrete inputs.
use battery_lab_sim.Prelude.{◌≢◌, refl, String, some, [], ◌∷◌}
use battery_lab_sim.Prelude.Int.{ℤ, pos}
use battery_lab_sim.Prelude.Float.{fixed_point}
use battery_lab_sim.Schedule.Load.{RawSchedule, body, load_schedule}
use battery_lab_sim.Schedule.Load.Runnable.{IsRunnable, load_schedule-IsRunnable}
use battery_lab_sim.Examples.Samples.{schedule}
use battery_lab_sim.Schedule.Bench.{ChassisSpec, one, text, single, range}

-- "7, 1-3, 2"
abbrev bench : ChassisSpec
bench = text (single 7 ∷ range 1 3 ∷ single 2 ∷ [])

abbrev sha : String
sha = "4f2a"

abbrev raw : RawSchedule ℤ
raw = record {
  schedule_id = "formation";
  chemistry = "NMC";
  chassis = one 1;
  channels_per_chassis = pos 2;
  chamber = some schedule.chamber;
  steps = schedule.steps;
  repeat = pos 2;
}

load_schedule-IsRunnable_example : IsRunnable schedule × (sha ≢ "")
unfolding load_schedule
load_schedule-IsRunnable_example =
    load_schedule-IsRunnable (λ text. some text) (λ text. some raw) (body "formation.yaml")
      (some (0, sha)) schedule sha refl
