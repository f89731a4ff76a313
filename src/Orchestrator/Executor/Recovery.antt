-- ===== src/Orchestrator/Executor/Recovery.antt =====
-- services/orchestrator/src/orchestrator/executor.py and main.py: the rows that a tick leaves, whatever
-- fails on the way, and the position that a restart reads from them.
use battery_lab_sim.Prelude.{
  ◌+◌, refl, String, String_eq, Bool, true, false, Bool-cases, Option-cases, inl, inr, get_elem?,
  if◌then◌else◌, leb,
}
use battery_lab_sim.Prelude.Float.{Float}
use battery_lab_sim.Chemistry.{ChemistryParams}
use battery_lab_sim.Schedule.{Step, step_name, end_condition_met}
use battery_lab_sim.Orchestrator.Client.{ChannelSnapshot}
use battery_lab_sim.Orchestrator.State.{State, Env, Result, ok, raise, Action, and_then, ◌>>◌}
use battery_lab_sim.Orchestrator.Tables.{
  db, complete_row, insert_named, insert_step_row, mark_step_completed, now_sim, current_step,
}
use battery_lab_sim.Orchestrator.Build.{resume_position}
use battery_lab_sim.Orchestrator.Executor.{
  chemistry_of, command_step, next_position, move_on, complete_experiment, issue_next_step,
  start_next_step, advance, run_current, run_step,
}
use battery_lab_sim.Orchestrator.Executor.Frame.{
  Keeps, current_step-Keeps, chemistry_of-Keeps, command_step-Keeps, complete_experiment-Keeps,
  issue_next_step-Keeps,
}
use battery_lab_sim.Orchestrator.Executor.Positions.{
  IsResumable, IsCurrent, Same-IsResumable, Same-IsCurrent, IsCurrent-IsResumable, insert_row-last,
  complete_row-last, IsBetween, completed-IsBetween, move_on-IsBetween,
}

module _ {R : Type 0} where
  and_then-IsResumable :
      {A B : Type 0} (r : Result A × State R) (f : A → Action R B)
      → IsResumable r.1
      → ((a : A) → Keeps (f a))
      → IsResumable (and_then r f).1
  and_then-IsResumable (ok a, s) f h k = Same-IsResumable s (f a s).1 (k a s) h
  and_then-IsResumable (raise e, s) f h k = h

  and_then-IsBetween :
      {A B : Type 0} (r : Result A × State R) (f : A → Action R B)
      → IsBetween r.1
      → ((a : A) (t : State R) → IsBetween t → IsResumable (f a t).1)
      → IsResumable (and_then r f).1
  and_then-IsBetween (ok a, s) f h k = k a s h
  and_then-IsBetween (raise e, s) f h k = h.0

  and_then-IsCurrent :
      {A B : Type 0} (r : Result A × State R) (f : A → Action R B)
      → IsCurrent r.1
      → ((a : A) (t : State R) → IsCurrent t → IsResumable (f a t).1)
      → IsResumable (and_then r f).1
  and_then-IsCurrent (ok a, s) f h k = k a s h
  and_then-IsCurrent (raise e, s) f h k = IsCurrent-IsResumable s h

  if-IsResumable :
      {A : Type 0} (b : Bool) (m n : Action R A) (s : State R)
      → IsResumable (m s).1
      → IsResumable (n s).1
      → IsResumable ((if b then m else n) s).1
  if-IsResumable true m n s h k = h
  if-IsResumable false m n s h k = k

module _ {R : Type 0} (env : Env R) where
  insert_named-IsResumable :
      (name : String) (s : State R) → IsBetween s → IsResumable (insert_named env name s).1
  unfolding insert_named db resume_position
  insert_named-IsResumable name s h = elim (Bool-cases (env.db_fails s.calls)) [
    | inl e ↦ rw e h.0
    | inr e ↦ rw (e, insert_row-last s.exp name s.steps h.1) refl
  ]

  insert_step_row-IsResumable : (s : State R) → IsBetween s → IsResumable (insert_step_row env s).1
  unfolding insert_step_row current_step
  insert_step_row-IsResumable s h =
      elim (Option-cases (get_elem? s.exp.schedule.steps s.exp.step_index)) [
        | inl e ↦ rw e h.0
        | inr (step, e) ↦ rw e (insert_named-IsResumable (step_name step) s h)
      ]

module _ {R : Type 0} ⦃fl : Float R⦄ (env : Env R) where
  start_next_step-IsResumable :
      (b : Bool) (s : State R) → IsBetween s → IsResumable (start_next_step env b s).1
  unfolding start_next_step now_sim
  start_next_step-IsResumable b s h =
      let t : State R = record s {
        calls = s.calls + 1;
        exp = record s.exp { step_started_sim_s = env.now_sim s.calls };
      } in
      and_then-IsResumable (insert_step_row env t) (λ _. issue_next_step env b)
        (insert_step_row-IsResumable env t h) (λ _. issue_next_step-Keeps env b)

  -- `advance` from a state whose step in memory is completed.
  advance-IsResumable :
      (s : State R)
      → IsBetween (record s { exp = (next_position s.exp).0 })
      → IsResumable (advance env s).1
  unfolding advance
  advance-IsResumable s h = and_then-IsBetween (move_on s) _ (move_on-IsBetween s h) (λ b t k.
      if-IsResumable (leb t.exp.schedule.repeat t.exp.cycle_index) (complete_experiment env)
        (start_next_step env b) t
        (Same-IsResumable t (complete_experiment env t).1 (complete_experiment-Keeps env t) k.0)
        (start_next_step-IsResumable b t k))

  finish_step-IsResumable :
      (s : State R) → IsCurrent s → IsResumable ((mark_step_completed env >> advance env) s).1
  unfolding mark_step_completed db
  finish_step-IsResumable s h = elim (Bool-cases (env.db_fails s.calls)) [
    | inl e ↦ rw e (IsCurrent-IsResumable s h)
    | inr e ↦
        let t : State R = record s {
          calls = s.calls + 1;
          steps = complete_row s.exp.id s.exp.cycle_index s.exp.step_index s.steps;
        } in
        rw e (
          advance-IsResumable t
            (completed-IsBetween s.exp h.0 t (complete_row-last s.exp h.0 s.steps h.1)))
  ]

  run_current-IsResumable :
      (snap : ChannelSnapshot R) (chem : ChemistryParams R) (step : Step R) (s : State R)
      → IsCurrent s
      → IsResumable (run_current env snap chem step s).1
  unfolding run_current now_sim
  run_current-IsResumable snap chem step s h =
      let t : State R = record s { calls = s.calls + 1 } in
      if-IsResumable
        (end_condition_met step snap.voltage_v snap.current_a
          (fl.sub (env.now_sim s.calls) s.exp.step_started_sim_s) chem.capacity_ah_nominal)
        (mark_step_completed env >> advance env) (command_step env step chem) t
        (finish_step-IsResumable t h)
        (Same-IsResumable t (command_step env step chem t).1 (command_step-Keeps env step chem t)
          (IsCurrent-IsResumable s h))

  -- After the part of a tick that follows on a channel without an error, started with the last row that
  -- of the step in memory and not completed, a restart resumes at the position that is in memory,
  -- whatever calls fail and wherever the tick stops.
  pub run_step-IsResumable :
      (snap : ChannelSnapshot R) (s : State R) → IsCurrent s → IsResumable (run_step env snap s).1
  unfolding run_step
  run_step-IsResumable snap s h =
      and_then-IsCurrent (chemistry_of env s) _
        (Same-IsCurrent s (chemistry_of env s).1 (chemistry_of-Keeps env s) h)
        (λ chem t k.
          and_then-IsCurrent (current_step env t) _
            (Same-IsCurrent t (current_step env t).1 (current_step-Keeps env t) k)
            (λ step u l. run_current-IsResumable snap chem step u l))
