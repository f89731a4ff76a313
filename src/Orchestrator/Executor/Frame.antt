-- ===== src/Orchestrator/Executor/Frame.antt =====
-- services/orchestrator/src/orchestrator/executor.py: the actions that leave the rows and the position of
-- the experiment as they are, whatever fails.
use battery_lab_sim.Prelude.{ℕ, ◌≡◌, refl, ap, String, Bool, List, ◌+◌, String_eq}
use battery_lab_sim.Prelude.Float.{Float}
use battery_lab_sim.Prelude.Dict.{insert}
use battery_lab_sim.Models.{ChannelMode, idle}
use battery_lab_sim.Chemistry.{ChemistryParams}
use battery_lab_sim.Schedule.{Schedule, Step}
use battery_lab_sim.Orchestrator.Client.{Write}
use battery_lab_sim.Orchestrator.State.{
  postgres_error, StepRow, CriticalAlert, State, Env, Status, Result, ok, raise, Action, and_then,
  ◌>>◌, completed,
}
use battery_lab_sim.Orchestrator.Tables.{
  db, modbus_write, current_step, mark_status_of, mark_experiment_status, clear_context,
}
use battery_lab_sim.Orchestrator.Executor.{
  read_channel, chemistry_of, command, kick, stamp_cycle, command_step, complete_experiment,
  issue_next_step,
}
use battery_lab_sim.Orchestrator.Executor.Outside.{
  Leaves, and_then-Leaves, if-Leaves, Inside, inside, modbus_write-Leaves, current_step-Leaves,
  chemistry_of-Leaves, command-Leaves, kick-Leaves, stamp_cycle-Leaves, command_step-Leaves,
  issue_next_step-Leaves, read_channel-Leaves,
}

-- What the resume of an experiment depends on, its rows, its id, its schedule and its position, and
-- the alerts and the count of drifts.
abbrev pub Footprint : Type 0 → Type 0
Footprint R = List StepRow × String × Schedule R × ℕ × ℕ × List CriticalAlert × ℕ

module _ {R : Type 0} where
  abbrev pub footprint : State R → Footprint R
  footprint s = (
    s.steps, s.exp.id, s.exp.schedule, s.exp.cycle_index, s.exp.step_index, s.alerts,
    s.exp.resume_drift_count,
  )

  abbrev pub Same : State R → State R → Type 0
  Same s t = footprint t ≡ footprint s

  abbrev pub Keeps : {A : Type 0} → Action R A → Type 0
  Keeps m = (s : State R) → Same s (m s).1

  pub and_then-Same :
      {A B : Type 0} (s : State R) (r : Result A × State R) (f : A → Action R B)
      → Same s r.1
      → ((a : A) → Keeps (f a))
      → Same s (and_then r f).1
  and_then-Same s r f h k = and_then-Leaves footprint s r f h k

  -- The footprint is a part of what is inside.
  Leaves-Keeps : {A : Type 0} (m : Action R A) → Leaves inside m → Keeps m
  Leaves-Keeps m h s =
      ap
        (λ (i : Inside R).
          let part : Footprint R = (
            i.2, i.0.id, i.0.schedule, i.0.cycle_index, i.0.step_index, i.3, i.0.resume_drift_count,
          ) in
          part)
        (h s)

module _ {R : Type 0} (env : Env R) where
  pub modbus_write-Keeps : (w : Write) → Keeps (modbus_write env w)
  modbus_write-Keeps w = Leaves-Keeps (modbus_write env w) (modbus_write-Leaves env w)

  pub current_step-Keeps : Keeps (current_step env)
  current_step-Keeps = Leaves-Keeps (current_step env) (current_step-Leaves env)

  pub mark_status_of-Keeps : (id : String) (status : Status) → Keeps (mark_status_of env id status)
  unfolding mark_status_of db
  mark_status_of-Keeps id status s =
      if-Leaves footprint s (env.db_fails s.calls)
        (raise postgres_error, record s { calls = s.calls + 1 })
        (ok tt, record s { calls = s.calls + 1; statuses = insert id status s.statuses }) refl refl

  mark_experiment_status-Keeps : (status : Status) → Keeps (mark_experiment_status env status)
  unfolding mark_experiment_status
  mark_experiment_status-Keeps status s = mark_status_of-Keeps s.exp.id status s

module _ {R : Type 0} ⦃fl : Float R⦄ (env : Env R) where
  pub chemistry_of-Keeps : Keeps (chemistry_of env)
  chemistry_of-Keeps = Leaves-Keeps (chemistry_of env) (chemistry_of-Leaves env)

  pub kick-Keeps : Keeps (kick env)
  kick-Keeps = Leaves-Keeps (kick env) (kick-Leaves env)

  pub stamp_cycle-Keeps : Keeps (stamp_cycle env)
  stamp_cycle-Keeps = Leaves-Keeps (stamp_cycle env) (stamp_cycle-Leaves env)

  pub command_step-Keeps :
      (step : Step R) (chem : ChemistryParams R) → Keeps (command_step env step chem)
  command_step-Keeps step chem =
      Leaves-Keeps (command_step env step chem) (command_step-Leaves env step chem)

  pub command-Keeps : (mode : ChannelMode) (setpoint : R) → Keeps (command env mode setpoint)
  command-Keeps mode setpoint =
      Leaves-Keeps (command env mode setpoint) (command-Leaves env mode setpoint)

  pub complete_experiment-Keeps : Keeps (complete_experiment env)
  unfolding complete_experiment clear_context
  complete_experiment-Keeps s =
      and_then-Same s
        (mark_experiment_status env completed
          (record s { exp = record s.exp { status = completed } }))
        (λ _. command env idle (fl.lit 0 0) >> clear_context)
        (mark_experiment_status-Keeps env completed _)
        (λ _ t.
          and_then-Same t (command env idle (fl.lit 0 0) t) (λ _. clear_context)
            (command-Keeps idle (fl.lit 0 0) t) (λ _ u. refl))

  pub issue_next_step-Keeps : (b : Bool) → Keeps (issue_next_step env b)
  issue_next_step-Keeps b = Leaves-Keeps (issue_next_step env b) (issue_next_step-Leaves env b)

  pub read_channel-Keeps : Keeps (read_channel env)
  read_channel-Keeps = Leaves-Keeps (read_channel env) (read_channel-Leaves env)
