-- ===== src/Orchestrator/Boot.antt =====
-- services/orchestrator/src/orchestrator/main.py: the boot, from the connected cyclers on, and the turns
-- of the executor after it. Other programs insert rows between the turns.
pub mod Starved
pub mod Lost
use battery_lab_sim.Prelude.{
  ℕ, ◌+◌, String, String_eq, Bool, true, false, Option, none, some, List, [], ◌∷◌, ◌++◌,
  if◌then◌else◌,
}
use battery_lab_sim.Prelude.Float.{Float}
use battery_lab_sim.Prelude.Dict.{insert}
use battery_lab_sim.Schedule.{Schedule}
use battery_lab_sim.Orchestrator.Client.{kick_chassis}
use battery_lab_sim.Orchestrator.State.{Exn, Experiment, State, Env, Result, ok, raise}
use battery_lab_sim.Orchestrator.Tables.{db}
use battery_lab_sim.Orchestrator.Build.{ExperimentRow}
use battery_lab_sim.Orchestrator.Resume.{resume_record}
use battery_lab_sim.Orchestrator.Sweep.{resume_groups}
use battery_lab_sim.Orchestrator.Gather.{Task, tasks_of, gather}
use battery_lab_sim.Orchestrator.Bench.{
  Bench, current_rows, log_chassis_sweep_errors, executor_turn,
}

-- An entry of the dict of tracked experiments.
abbrev pub Entry : Type 0 → Type 0
Entry R = String × Experiment R

module _ {R : Type 0} where
  -- `out.update(result)`
  unfoldable pub update_all : List (Entry R) → List (Entry R) → List (Entry R)
  unfolding insert
  update_all [] out = out
  update_all ((key, exp) ∷ entries) out = update_all entries (insert key exp out)

  -- What a chassis collected counts only if its coroutine returned.
  abbrev pub merge_task : Option Exn → List (Entry R) → List (Entry R) → List (Entry R)
  merge_task none results out = update_all results out
  merge_task (some e) results out = out

  unfoldable pub merge : List (Task ExperimentRow (Entry R)) → List (Entry R) → List (Entry R)
  unfolding update_all
  merge [] out = out
  merge (t ∷ ts) out = merge ts (merge_task t.raised t.results out)

  abbrev pub after_resume : List (Task ExperimentRow (Entry R)) × State R → Bench R → Bench R
  after_resume (ts, s) b = record b {
    state = s;
    experiments = merge ts [];
    errors = log_chassis_sweep_errors "resume" ts b.errors;
  }

  -- What follows a turn or the boot, unless it raised.
  abbrev pub next_turns :
      (Bench R → Result (Unit {0}) × Bench R)
      → Result (Unit {0}) × Bench R
      → Result (Unit {0}) × Bench R
  next_turns loop (ok x, b) = loop b
  next_turns loop (raise e, b) = (raise e, b)

-- What happens outside before a turn of the executor, and the orders of its two sweeps.
pub record ExecutorTurn : Type 0 where
  pub new_rows : List ExperimentRow
  pub kickoff_order : List ℕ
  pub tick_order : List ℕ

module _ {R : Type 0} ⦃fl : Float R⦄ (env : Env R) where
  -- `await c.kick_chassis()` for each connected cycler; an `OSError` is only logged.
  unfoldable pub initial_kicks : List ℕ → State R → State R
  initial_kicks [] s = s
  initial_kicks (id ∷ ids) s = initial_kicks ids (
      if env.modbus_fails s.calls
      then record s { calls = s.calls + 1 }
      else (record s { calls = s.calls + 1; writes = s.writes ++ (id, kick_chassis) ∷ [] }))

  abbrev pub after_record : Result Bool × State R → Result (Option (Entry R)) × State R
  after_record (ok true, s) = (ok (some (s.exp.id, s.exp)), s)
  after_record (ok false, s) = (ok none, s)
  after_record (raise e, s) = (raise e, s)

  -- One row of `resume_one_chassis`, with the entry of its private dict.
  unfoldable pub resume_row :
      (String → Result (Schedule R))
      → List ℕ
      → ExperimentRow
      → State R
      → Result (Option (Entry R)) × State R
  unfolding resume_record
  resume_row schedules known row s = after_record (resume_record env schedules known row s)

  -- `_resume_inflight`, after its query.
  unfoldable pub resume_rows :
      (String → Result (Schedule R)) → List ℕ → List ℕ → List ExperimentRow → Bench R → Bench R
  unfolding resume_groups gather tasks_of resume_row merge
  resume_rows schedules known order rows b =
      after_resume
        (gather (resume_row schedules known) order (tasks_of (resume_groups rows)) b.state) b

  abbrev pub after_load :
      (String → Result (Schedule R))
      → List ℕ
      → List ℕ
      → Bench R
      → Result (Unit {0}) × State R
      → Result (Unit {0}) × Bench R
  after_load schedules known order b (raise e, s) = (raise e, record b { state = s })
  after_load schedules known order b (ok x, s) =
      (ok tt, resume_rows schedules known order (current_rows s b.rows) (record b { state = s }))

  unfoldable pub resume_inflight :
      (String → Result (Schedule R)) → List ℕ → List ℕ → Bench R → Result (Unit {0}) × Bench R
  unfolding resume_rows current_rows db
  resume_inflight schedules known order b =
      after_load schedules known order b (db env (λ s. s) b.state)

  -- The kicks of all chassis stand before the resume.
  unfoldable pub boot :
      (String → Result (Schedule R)) → List ℕ → List ℕ → Bench R → Result (Unit {0}) × Bench R
  unfolding initial_kicks resume_inflight
  boot schedules known order b =
      resume_inflight schedules known order (record b { state = initial_kicks known b.state })

  -- `_executor_loop`; an exception of the poll ends it.
  unfoldable pub executor_loop :
      (String → Result (Schedule R))
      → List ℕ
      → List ExecutorTurn
      → Bench R
      → Result (Unit {0}) × Bench R
  unfolding executor_turn
  executor_loop schedules known [] b = (ok tt, b)
  executor_loop schedules known (t ∷ ts) b = next_turns (executor_loop schedules known ts) (
      executor_turn env schedules known t.kickoff_order t.tick_order
        (record b { rows = b.rows ++ t.new_rows }))

  -- `_run`, from the connected cyclers on.
  unfoldable pub run :
      (String → Result (Schedule R))
      → List ℕ
      → List ℕ
      → List ExecutorTurn
      → Bench R
      → Result (Unit {0}) × Bench R
  unfolding boot executor_loop
  run schedules known order ts b =
      next_turns (executor_loop schedules known ts) (boot schedules known order b)
