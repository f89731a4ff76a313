-- ===== src/Orchestrator/Executor/Statuses.antt =====
-- services/orchestrator/src/orchestrator/executor.py: what a tick does to the statuses of the table and of
-- the experiment, whatever fails.
use battery_lab_sim.Prelude.{
  ◌+◌, refl, ap, String, String_eq, Bool, List, Bool-cases, inl, inr, length, leb,
}
use battery_lab_sim.Prelude.Float.{Float}
use battery_lab_sim.Schedule.{step_name}
use battery_lab_sim.Orchestrator.State.{State, Env, Status, Action}
use battery_lab_sim.Orchestrator.Tables.{
  db, now_sim, current_step, insert_named, insert_step_row, mark_step_completed,
  enqueue_cycle_complete,
}
use battery_lab_sim.Orchestrator.Executor.{next_position, move_on, issue_next_step, start_next_step}
use battery_lab_sim.Orchestrator.Executor.Outside.{
  Leaves, and_then-Leaves, if-Leaves, Inside, inside, current_step-Leaves, issue_next_step-Leaves,
}

-- The experiment's id and status, and the statuses of the table.
abbrev pub View : Type 0
View = String × Status × List (String × Status)

module _ {R : Type 0} where
  abbrev pub view : State R → View
  view s = (s.exp.id, s.exp.status, s.statuses)

  pub inside-view : {A : Type 0} (m : Action R A) → Leaves inside m → Leaves view m
  inside-view m h s = ap (λ (i : Inside R). let v : View = (i.0.id, i.0.status, i.1) in v) (h s)

  pub move_on-view : Leaves view (move_on {R = R})
  unfolding move_on next_position enqueue_cycle_complete
  move_on-view s = elim (Bool-cases (leb (length s.exp.schedule.steps) (s.exp.step_index + 1))) [
    | inl e ↦ rw e refl
    | inr e ↦ rw e refl
  ]

module _ {R : Type 0} ⦃fl : Float R⦄ (env : Env R) where
  pub mark_step_completed-view : Leaves view (mark_step_completed env)
  unfolding mark_step_completed db
  mark_step_completed-view s = if-Leaves view s (env.db_fails s.calls) _ _ refl refl

  pub insert_named-view : (name : String) → Leaves view (insert_named env name)
  unfolding insert_named db
  insert_named-view name s = if-Leaves view s (env.db_fails s.calls) _ _ refl refl

  pub insert_step_row-view : Leaves view (insert_step_row env)
  unfolding insert_step_row
  insert_step_row-view s =
      and_then-Leaves view s (current_step env s) _
        (inside-view (current_step env) (current_step-Leaves env) s)
        (λ step. insert_named-view (step_name step))

  pub start_next_step-view : (b : Bool) → Leaves view (start_next_step env b)
  unfolding start_next_step now_sim
  start_next_step-view b s =
      and_then-Leaves view s
        (insert_step_row env (record s {
          exp = record s.exp { step_started_sim_s = env.now_sim s.calls };
          calls = s.calls + 1;
        }))
        (λ _. issue_next_step env b) (insert_step_row-view _)
        (λ _. inside-view (issue_next_step env b) (issue_next_step-Leaves env b))
