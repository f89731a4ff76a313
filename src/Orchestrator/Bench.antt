-- ===== src/Orchestrator/Bench.antt =====
-- services/orchestrator/src/orchestrator/main.py: all experiments of a bench in one state, the three
-- sweeps over them, the executor's loop and the boot. `known` are the ids of the connected cyclers.
pub mod Blocked
pub mod Ticked
pub mod Visits
pub mod Mirror
use battery_lab_sim.Prelude.{
  ℕ, String, String_eq, Bool, true, false, Option, none, some, List, [], ◌∷◌, ◌++◌, map,
  if◌then◌else◌,
}
use battery_lab_sim.Prelude.Float.{Float}
use battery_lab_sim.Prelude.Dict.{lookup, insert, keys}
use battery_lab_sim.Schedule.{Schedule}
use battery_lab_sim.Orchestrator.State.{Exn, Status, Experiment, State, Env, Result, ok, raise}
use battery_lab_sim.Orchestrator.Tables.{db}
use battery_lab_sim.Orchestrator.Build.{ExperimentRow}
use battery_lab_sim.Orchestrator.Kickoff.{kickoff_record, tick, poll_pending, is_terminal}
use battery_lab_sim.Orchestrator.Sweep.{group, is_tickable, kickoff_groups}
use battery_lab_sim.Orchestrator.Gather.{Task, tasks_of, gather}

-- What `_log_chassis_sweep_errors` logs.
pub record SweepError : Type 0 where
  pub sweep : String
  pub chassis_id : ℕ
  pub error : Exn

-- `state.exp` is the experiment at hand; the dict holds each tracked experiment as it was last left.
pub record Bench (R : Type 0) : Type 0 where
  pub state : State R
  pub rows : List ExperimentRow
  pub experiments : List (String × Experiment R)
  pub errors : List SweepError

-- The rows of the table with the statuses that were written to them.
abbrev pub status_or : Status → Option Status → Status
status_or status none = status
status_or status (some written) = written

abbrev pub current_row : {R : Type 0} → State R → ExperimentRow → ExperimentRow
current_row s row = record row { status = status_or row.status (lookup row.id s.statuses) }

unfoldable pub current_rows : {R : Type 0} → State R → List ExperimentRow → List ExperimentRow
unfolding lookup
current_rows s rows = map (current_row s) rows

-- `_log_chassis_sweep_errors`
unfoldable pub log_chassis_sweep_errors :
    {A B : Type 0} → String → List (Task A B) → List SweepError → List SweepError
log_chassis_sweep_errors sweep [] errors = errors
log_chassis_sweep_errors sweep (t ∷ ts) errors = log_chassis_sweep_errors sweep ts (elim t.raised [
  | none ↦ errors
  | some e ↦ errors ++ (record { sweep = sweep; chassis_id = t.chassis; error = e }) ∷ []
])

abbrev pub after_sweep : {R A B : Type 0} → String → List (Task A B) × Bench R → Bench R
after_sweep sweep (ts, b) = record b { errors = log_chassis_sweep_errors sweep ts b.errors }

-- Completed and failed experiments leave the dict.
unfoldable pub reap : {R : Type 0} → List (String × Experiment R) → List (String × Experiment R)
reap [] = []
reap (entry ∷ entries) =
    let rest = reap entries in if is_terminal entry.1.status then rest else entry ∷ rest

-- The keys of what a tick sweep visits, by chassis.
unfoldable pub tick_plan : {R : Type 0} → List ℕ → Bench R → List (ℕ × List String)
unfolding group
tick_plan known b =
    group (λ entry. is_tickable known entry.1) (λ entry. entry.1.chassis_id) (λ entry. entry.0)
      b.experiments []

module _ {R : Type 0} ⦃fl : Float R⦄ (env : Env R) where
  -- The experiment at hand goes back to its place, also if its tick raised.
  abbrev pub after_tick :
      String → Bench R → Result (Unit {0}) × State R → Result (Option (Unit {0})) × Bench R
  after_tick key b (ok x, s) =
      (ok none, record b { state = s; experiments = insert key s.exp b.experiments })
  after_tick key b (raise e, s) =
      (raise e, record b { state = s; experiments = insert key s.exp b.experiments })

  abbrev pub tick_found :
      String → Bench R → Option (Experiment R) → Result (Option (Unit {0})) × Bench R
  tick_found key b none = (ok none, b)
  tick_found key b (some exp) = after_tick key b (tick env (record b.state { exp = exp }))

  -- One experiment of `tick_one_chassis`, by its key in the dict.
  unfoldable pub tick_tracked : String → Bench R → Result (Option (Unit {0})) × Bench R
  unfolding tick lookup insert
  tick_tracked key b = tick_found key b (lookup key b.experiments)

  -- `_tick_running`
  unfoldable pub tick_running : List ℕ → List ℕ → Bench R → Bench R
  unfolding tick_plan gather tasks_of tick_tracked
  tick_running known order b =
      after_sweep "tick" (gather tick_tracked order (tasks_of (tick_plan known b)) b)

  -- What `kickoff_one_chassis` does with a row that it kicked off, left out, or raised at.
  abbrev pub after_kickoff : Bench R → Result Bool × State R → Result (Option (Unit {0})) × Bench R
  after_kickoff b (ok true, s) =
      (ok none, record b { state = s; experiments = insert s.exp.id s.exp b.experiments })
  after_kickoff b (ok false, s) = (ok none, record b { state = s })
  after_kickoff b (raise e, s) = (raise e, record b { state = s })

  unfoldable pub kickoff_row :
      (String → Result (Schedule R))
      → List ℕ
      → ExperimentRow
      → Bench R
      → Result (Option (Unit {0})) × Bench R
  unfolding kickoff_record insert
  kickoff_row schedules known row b =
      after_kickoff b (kickoff_record env schedules known row b.state)

  -- `_kickoff_pending`
  unfoldable pub kickoff_pending :
      (String → Result (Schedule R)) → List ℕ → List ℕ → List ExperimentRow → Bench R → Bench R
  unfolding kickoff_groups gather tasks_of kickoff_row
  kickoff_pending schedules known order new_rows b =
      after_sweep "kickoff"
        (gather (kickoff_row schedules known) order (tasks_of (kickoff_groups new_rows)) b)

  -- One turn of `_executor_loop`, from the answer of the poll on.
  abbrev pub after_poll :
      (String → Result (Schedule R))
      → List ℕ
      → List ℕ
      → List ℕ
      → Bench R
      → Result (Unit {0}) × State R
      → Result (Unit {0}) × Bench R
  after_poll schedules known kickoff_order tick_order b (raise e, s) =
      (raise e, record b { state = s })
  after_poll schedules known kickoff_order tick_order b (ok x, s) =
      let new_rows = poll_pending (keys b.experiments) (current_rows s b.rows) in
      let kicked =
        kickoff_pending schedules known kickoff_order new_rows (record b { state = s }) in
      let ticked = tick_running known tick_order kicked in
      (ok tt, record ticked { experiments = reap ticked.experiments })

  unfoldable pub executor_turn :
      (String → Result (Schedule R))
      → List ℕ
      → List ℕ
      → List ℕ
      → Bench R
      → Result (Unit {0}) × Bench R
  unfolding poll_pending current_rows kickoff_pending tick_running reap db
  executor_turn schedules known kickoff_order tick_order b =
      after_poll schedules known kickoff_order tick_order b (db env (λ s. s) b.state)
