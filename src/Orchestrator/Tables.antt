-- ===== src/Orchestrator/Tables.antt =====
-- services/orchestrator/src/orchestrator/executor.py, the statements on the two experiment tables, and
-- events.py and context.py, the two queues. A statement that fails raises `PostgresError`.
use battery_lab_sim.Prelude.{
  ℕ, ◌+◌, String, String_eq, Bool, true, false, ◌&&◌, none, some, List, [], ◌∷◌, ◌++◌, map, ◌==◌,
  if◌then◌else◌, any, get_elem?,
}
use battery_lab_sim.Prelude.Dict.{insert}
use battery_lab_sim.Schedule.{Step, step_name}
use battery_lab_sim.Orchestrator.Client.{Write}
use battery_lab_sim.Orchestrator.State.{
  os_error, postgres_error, index_error, Status, Experiment, StepRow, State, Env, ok, raise, Action,
  modify, or_raise, put_nowait, and_then, ◌>>=◌, get,
}
use text.Mathlib.Text.{◌==◌ as str_eq}

abbrev pub same_step : String → ℕ → ℕ → StepRow → Bool
same_step id cycle step row =
    str_eq row.experiment_id id && row.cycle_index == cycle && row.step_index == step

-- `INSERT … ON CONFLICT (experiment_id, cycle_index, step_index) DO NOTHING`
unfoldable pub insert_row : StepRow → List StepRow → List StepRow
insert_row row rows =
    if any (same_step row.experiment_id row.cycle_index row.step_index) rows
    then rows
    else rows ++ row ∷ []

-- `UPDATE experiment_steps SET state='completed' WHERE …`
unfoldable pub complete_row : String → ℕ → ℕ → List StepRow → List StepRow
complete_row id cycle step rows =
    map (λ row. if same_step id cycle step row then record row { completed = true } else row) rows

-- The row that is written when a step begins.
abbrev pub new_row : {R : Type 0} → Experiment R → String → StepRow
new_row exp name = record {
  experiment_id = exp.id;
  cycle_index = exp.cycle_index;
  step_index = exp.step_index;
  step_name = name;
  completed = false;
}

module _ {R : Type 0} (env : Env R) where
  -- One statement: it takes effect, or raises and changes nothing.
  unfoldable pub db : (State R → State R) → Action R (Unit {0})
  db effect s =
      if env.db_fails s.calls
      then (raise postgres_error, record s { calls = s.calls + 1 })
      else (ok tt, record (effect s) { calls = s.calls + 1 })

  -- One Modbus write to the experiment's chassis.
  unfoldable pub modbus_write : Write → Action R (Unit {0})
  modbus_write w s =
      if env.modbus_fails s.calls then (raise os_error, record s { calls = s.calls + 1 }) else (
        ok tt,
        record s { calls = s.calls + 1; writes = s.writes ++ (s.exp.chassis_id, w) ∷ [] },
      )

  unfoldable pub modbus_writes : List Write → Action R (Unit {0})
  unfolding modbus_write
  modbus_writes [] s = (ok tt, s)
  modbus_writes (w ∷ ws) s = and_then (modbus_write w s) (λ _. modbus_writes ws)

  -- The registers of one answer.
  unfoldable pub modbus_read : Action R (ℕ → ℕ)
  modbus_read s =
      if env.modbus_fails s.calls
      then (raise os_error, record s { calls = s.calls + 1 })
      else (ok (env.register s.calls), record s { calls = s.calls + 1 })

  unfoldable pub now_sim : Action R R
  now_sim s = (ok (env.now_sim s.calls), record s { calls = s.calls + 1 })

  unfoldable pub insert_named : String → Action R (Unit {0})
  unfolding db insert_row
  insert_named name = db λ s. record s { steps = insert_row (new_row s.exp name) s.steps }

  -- `exp.schedule.steps[exp.step_index]`
  unfoldable pub current_step : Action R (Step R)
  current_step s = or_raise index_error (get_elem? s.exp.schedule.steps s.exp.step_index) s

  unfoldable pub insert_step_row : Action R (Unit {0})
  unfolding db current_step
  insert_step_row = do step ← current_step; insert_named (step_name step)

  unfoldable pub mark_step_completed : Action R (Unit {0})
  unfolding db complete_row
  mark_step_completed =
      db λ s. record s { steps = complete_row s.exp.id s.exp.cycle_index s.exp.step_index s.steps }

  unfoldable pub mark_status_of : String → Status → Action R (Unit {0})
  unfolding db insert
  mark_status_of id status = db λ s. record s { statuses = insert id status s.statuses }

  unfoldable pub mark_experiment_status : Status → Action R (Unit {0})
  unfolding mark_status_of
  mark_experiment_status status = do s ← get; mark_status_of s.exp.id status

-- `enqueue_cycle_complete`
unfoldable pub enqueue_cycle_complete : {R : Type 0} → Action R (Unit {0})
unfolding put_nowait
enqueue_cycle_complete = modify λ s. record s {
  events = put_nowait s.events (record {
    experiment_id = s.exp.id;
    chassis_id = s.exp.chassis_id;
    channel_idx = s.exp.channel_idx;
    cycle_index = s.exp.cycle_index;
    schedule_id = s.exp.schedule.schedule_id;
  });
}

-- `publish_context` of the experiment's current step, named `name`.
unfoldable pub publish_context : {R : Type 0} → String → Action R (Unit {0})
unfolding put_nowait
publish_context name = modify λ s. record s {
  contexts = put_nowait s.contexts (record {
    chassis_id = s.exp.chassis_id;
    channel_idx = s.exp.channel_idx;
    payload = some (record {
      schedule_id = s.exp.schedule.schedule_id;
      step_name = name;
      step_index = s.exp.step_index;
      cycle_index = s.exp.cycle_index;
      experiment_id = s.exp.id;
    });
  });
}

unfoldable pub clear_context : {R : Type 0} → Action R (Unit {0})
unfolding put_nowait
clear_context = modify λ s. record s {
  contexts =
      put_nowait s.contexts
        (record { chassis_id = s.exp.chassis_id; channel_idx = s.exp.channel_idx; payload = none });
}
