-- ===== src/Orchestrator/Build.antt =====
-- services/orchestrator/src/orchestrator/main.py: the position at which an experiment resumes, and the
-- experiment that is built from its row. `schedules` is the query, the YAML parser and pydantic.
pub mod Journal
use battery_lab_sim.Prelude.{
  ℕ, ◌+◌, String, Bool, true, false, not, ◌&&◌, ◌||◌, Option, none, some, List, [], ◌∷◌, ◌==◌, ltb,
  leb, if◌then◌else◌, length,
}
use battery_lab_sim.Prelude.Float.{Float}
use battery_lab_sim.Schedule.{Schedule}
use battery_lab_sim.Orchestrator.State.{
  schedule_error, Status, running, completed, failed, Experiment, StepRow, Env, Result, ok, raise,
  Action, pure, throw, get, ◌>>=◌, ◌>>◌,
}
use battery_lab_sim.Orchestrator.Tables.{db, mark_status_of}
use text.Mathlib.Text.{◌==◌ as str_eq}

-- A row of `experiments`.
pub record ExperimentRow : Type 0 where
  pub id : String
  pub chassis_id : ℕ
  pub channel_idx : ℕ
  pub schedule_id : String
  pub schedule_git_sha : String
  pub status : Status

-- Whether a row comes before another in `ORDER BY cycle_index DESC, step_index DESC`.
abbrev pub is_later : StepRow → StepRow → Bool
is_later a b =
    ltb b.cycle_index a.cycle_index
    || b.cycle_index == a.cycle_index && ltb b.step_index a.step_index

abbrev pub later_of : StepRow → Option StepRow → StepRow
later_of a none = a
later_of a (some b) = if is_later b a then b else a

-- `SELECT … WHERE experiment_id=$1 ORDER BY … LIMIT 1`
unfoldable pub last_row : String → List StepRow → Option StepRow
last_row id [] = none
last_row id (row ∷ rows) =
    let rest = last_row id rows in
    if str_eq row.experiment_id id then some (later_of row rest) else rest

-- The position (cycle, step) after `_load_resume_state` has read its row; `count` is `len(steps)`.
unfoldable pub resume_position : ℕ → Option StepRow → ℕ × ℕ
resume_position count none = (0, 0)
resume_position count (some row) =
    if not row.completed
    then (row.cycle_index, row.step_index)
    else if leb count (row.step_index + 1)
    then (row.cycle_index + 1, 0)
    else (row.cycle_index, row.step_index + 1)

abbrev pub is_running : Status → Bool
is_running running = true
is_running _ = false

module _ {R : Type 0} ⦃fl : Float R⦄ (env : Env R) where
  -- `_load_resume_state`, a query that can fail.
  unfoldable pub load_resume_state : String → ℕ → Action R (ℕ × ℕ)
  unfolding db last_row resume_position
  load_resume_state id count = do
    db env (λ s. s)
    s ← get
    pure (resume_position count (last_row id s.steps))

  -- `ex.Experiment(…)` with its defaults.
  unfoldable pub new_experiment : ExperimentRow → Schedule R → ℕ × ℕ → Experiment R
  new_experiment rec schedule position = record {
    id = rec.id;
    chassis_id = rec.chassis_id;
    channel_idx = rec.channel_idx;
    schedule = schedule;
    schedule_git_sha = rec.schedule_git_sha;
    cycle_index = position.0;
    step_index = position.1;
    step_started_sim_s = fl.lit 0 0;
    status = rec.status;
    resume_drift_count = 0;
  }

  unfoldable pub build_running : ExperimentRow → Schedule R → Action R (Option (Experiment R))
  unfolding load_resume_state mark_status_of new_experiment
  build_running rec schedule = do
    position ← load_resume_state rec.id (length schedule.steps)
    if leb schedule.repeat position.0
        then (mark_status_of env rec.id completed >> pure none)
        else pure (some (new_experiment rec schedule position))

  -- Once the schedule is loaded or could not be.
  unfoldable pub build_from : ExperimentRow → Result (Schedule R) → Action R (Option (Experiment R))
  unfolding build_running
  build_from rec (raise schedule_error) = do mark_status_of env rec.id failed; pure none
  build_from rec (raise e) = throw e
  build_from rec (ok schedule) =
      if is_running rec.status
      then build_running rec schedule
      else pure (some (new_experiment rec schedule (0, 0)))

  -- `_build_experiment`; `schedules` is the query, the YAML parser and pydantic.
  unfoldable pub build_experiment :
      (String → Result (Schedule R)) → ExperimentRow → Action R (Option (Experiment R))
  unfolding build_from
  build_experiment schedules rec = build_from rec (schedules rec.schedule_id)
