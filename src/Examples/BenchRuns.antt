-- ===== src/Examples/BenchRuns.antt =====
-- The theorems on a bench with several experiments at concrete inputs.
use battery_lab_sim.Prelude.{
  ◌≡◌, refl, String, String_eq, ℕ_eq, List, [], ◌∷◌, arith, if◌then◌else◌,
}
use battery_lab_sim.Prelude.Int.{ℤ}
use battery_lab_sim.Prelude.Float.{fixed_point}
use battery_lab_sim.Prelude.Dict.{lookup}
use battery_lab_sim.Schedule.{Schedule}
use battery_lab_sim.Orchestrator.State.{
  pending, running, Experiment, Result, ok, raise, validation_error,
}
use battery_lab_sim.Orchestrator.Build.{ExperimentRow}
use battery_lab_sim.Orchestrator.Bench.{Bench, tick_running}
use battery_lab_sim.Orchestrator.Bench.Mirror.{IsTracked, tick_running-IsTracked}
use battery_lab_sim.Orchestrator.Bench.Visits.{TicksPlan, tick_running-visits}
use battery_lab_sim.Orchestrator.Boot.{ExecutorTurn, resume_rows, executor_loop}
use battery_lab_sim.Orchestrator.Boot.Starved.{executor_loop-starves}
use battery_lab_sim.Orchestrator.Boot.Lost.{resume_rows-loses}
use battery_lab_sim.Examples.Samples.{schedule, experiment, first_step, hot_env}
use text.Mathlib.Text.{◌==◌ as str_eq}
use text.Mathlib.TextEquality.{eq_iff}

abbrev other_chassis : Experiment ℤ
other_chassis = record experiment { id = "exp-2"; chassis_id = 2 }

abbrev bench : Bench ℤ
bench = record {
  state = first_step;
  rows = [];
  experiments = ("exp-1", experiment) ∷ ("exp-2", other_chassis) ∷ [];
  errors = [];
}

-- The second chassis takes its turn first.
tick_running-visits_example : TicksPlan hot_env (1 ∷ 2 ∷ []) (1 ∷ 0 ∷ []) 2 bench
tick_running-visits_example = tick_running-visits hot_env (1 ∷ 2 ∷ []) (1 ∷ 0 ∷ []) 2 bench

abbrev one_tracked : Bench ℤ
one_tracked = record bench { experiments = ("exp-1", experiment) ∷ [] }

one_tracked-IsTracked : IsTracked one_tracked
unfolding lookup
one_tracked-IsTracked k e found = ground (arith, eq_iff "exp-1" k)

-- The channel is halted, and the experiment ends.
tick_running-IsTracked_example : IsTracked (tick_running hot_env (1 ∷ []) [] one_tracked)
tick_running-IsTracked_example =
    tick_running-IsTracked hot_env (1 ∷ []) [] one_tracked one_tracked-IsTracked

abbrev valid_row : ExperimentRow
valid_row = record {
  id = "exp-1";
  chassis_id = 1;
  channel_idx = 0;
  schedule_id = "formation";
  schedule_git_sha = "";
  status = pending;
}

abbrev broken_row : ExperimentRow
broken_row = record valid_row { id = "exp-0"; channel_idx = 1; schedule_id = "broken" }

abbrev schedules : String → Result (Schedule ℤ)
schedules id = if str_eq id "broken" then raise validation_error else ok schedule

abbrev waiting : Bench ℤ
waiting = record {
  state = record first_step { statuses = [] };
  rows = broken_row ∷ valid_row ∷ [];
  experiments = [];
  errors = [];
}

abbrev two_turns : List ExecutorTurn
two_turns =
    (record { new_rows = []; kickoff_order = []; tick_order = [] })
    ∷ (record {
      new_rows = record valid_row { id = "exp-3"; channel_idx = 2 } ∷ [];
      kickoff_order = 0 ∷ [];
      tick_order = [];
    })
    ∷ []

executor_loop-starves_example :
    ((executor_loop hot_env schedules (1 ∷ []) two_turns waiting).1.experiments ≡ [])
    × ((executor_loop hot_env schedules (1 ∷ []) two_turns waiting).1.state.writes ≡ [])
unfolding lookup
executor_loop-starves_example =
    executor_loop-starves hot_env schedules (1 ∷ []) broken_row (valid_row ∷ []) two_turns waiting
      refl refl refl refl refl (refl, tt) (tt, ((refl, tt), tt))

abbrev was_running : ExperimentRow → ExperimentRow
was_running row = record row { status = running }

-- The row of the other chassis is still pending.
abbrev pending_row : ExperimentRow
pending_row = record valid_row { id = "exp-4"; chassis_id = 2 }

resume_rows-loses_example :
    (resume_rows hot_env schedules
      (1 ∷ [])
      []
      (was_running valid_row ∷ was_running broken_row ∷ pending_row ∷ [])
      waiting).experiments
    ≡ []
resume_rows-loses_example =
    resume_rows-loses hot_env schedules (1 ∷ []) [] (was_running broken_row)
      (was_running valid_row ∷ []) (pending_row ∷ []) waiting refl (refl, (refl, (refl, tt))) refl
      refl
