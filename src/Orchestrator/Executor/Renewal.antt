-- ===== src/Orchestrator/Executor/Renewal.antt =====
-- services/orchestrator/src/orchestrator/executor.py: the row that a tick which is not cut short leaves.
use battery_lab_sim.Prelude.{
  ◌⊎◌, ◌≤◌, leb→le, ◌+◌, ◌≡◌, refl, sym, subst, String, String_eq, Bool, true, false, Bool-cases,
  Option-cases, inl, inr, get_elem?, if◌then◌else◌, leb,
}
use battery_lab_sim.Prelude.Float.{Float}
use battery_lab_sim.Chemistry.{ChemistryParams}
use battery_lab_sim.Schedule.{Step, step_name, end_condition_met}
use battery_lab_sim.Orchestrator.Client.{ChannelSnapshot}
use battery_lab_sim.Orchestrator.State.{State, Env, Result, ok, raise, Action, and_then, ◌>>◌}
use battery_lab_sim.Orchestrator.Tables.{
  db, complete_row, insert_named, insert_step_row, mark_step_completed, now_sim, current_step,
}
use battery_lab_sim.Orchestrator.Executor.{
  chemistry_of, command_step, next_position, move_on, complete_experiment, issue_next_step,
  start_next_step, advance, run_current, run_step,
}
use battery_lab_sim.Orchestrator.Executor.Frame.{
  Footprint, Same, Keeps, current_step-Keeps, chemistry_of-Keeps, command_step-Keeps,
  complete_experiment-Keeps, issue_next_step-Keeps,
}
use battery_lab_sim.Orchestrator.Executor.Positions.{
  IsCurrent, Same-IsCurrent, insert_row-last, complete_row-last, IsBetween, completed-IsBetween,
  move_on-IsBetween,
}

module _ {R : Type 0} where
  -- The last row is the one of the step in memory and not completed, or all cycles are done.
  abbrev pub IsSettled : State R → Type 0
  IsSettled s = IsCurrent s ⊎ (s.exp.schedule.repeat ≤ s.exp.cycle_index)

  -- What a call that returns leaves is settled.
  abbrev pub IsRestored : {A : Type 0} → Result A × State R → Type 0
  IsRestored (ok a, s) = IsSettled s
  IsRestored (raise e, s) = Unit

  Same-IsSettled : (s t : State R) → Same s t → IsSettled s → IsSettled t
  Same-IsSettled s t e (inl h) = inl (Same-IsCurrent s t e h)
  Same-IsSettled s t e (inr h) = inr (subst (λ (p : Footprint R). p.2.repeat ≤ p.3) (sym e) h)

  IsSettled-IsRestored : {A : Type 0} (r : Result A × State R) → IsSettled r.1 → IsRestored r
  IsSettled-IsRestored (ok a, s) h = h
  IsSettled-IsRestored (raise e, s) h = tt

  and_then-IsRestored :
      {A B : Type 0} (r : Result A × State R) (f : A → Action R B)
      → IsRestored r
      → ((a : A) → Keeps (f a))
      → IsRestored (and_then r f)
  and_then-IsRestored (ok a, s) f h k =
      IsSettled-IsRestored (f a s) (Same-IsSettled s (f a s).1 (k a s) h)
  and_then-IsRestored (raise e, s) f h k = tt

  -- From a state with a property, through a call that keeps it.
  and_then-by :
      {A B : Type 0} (P : State R → Type 0) (r : Result A × State R) (f : A → Action R B)
      → P r.1
      → ((a : A) (t : State R) → P t → IsRestored (f a t))
      → IsRestored (and_then r f)
  and_then-by P (ok a, s) f h k = k a s h
  and_then-by P (raise e, s) f h k = tt

  if-IsRestored :
      {A : Type 0} (b : Bool) (m n : Action R A) (s : State R)
      → (b ≡ true → IsRestored (m s))
      → IsRestored (n s)
      → IsRestored ((if b then m else n) s)
  if-IsRestored true m n s h k = h refl
  if-IsRestored false m n s h k = k

module _ {R : Type 0} (env : Env R) where
  insert_named-IsRestored :
      (name : String) (s : State R) → IsBetween s → IsRestored (insert_named env name s)
  unfolding insert_named db
  insert_named-IsRestored name s h = elim (Bool-cases (env.db_fails s.calls)) [
    | inl e ↦ rw e tt
    | inr e ↦ rw e (inl (name, insert_row-last s.exp name s.steps h.1))
  ]

  insert_step_row-IsRestored : (s : State R) → IsBetween s → IsRestored (insert_step_row env s)
  unfolding insert_step_row current_step
  insert_step_row-IsRestored s h =
      elim (Option-cases (get_elem? s.exp.schedule.steps s.exp.step_index)) [
        | inl e ↦ rw e tt
        | inr (step, e) ↦ rw e (insert_named-IsRestored (step_name step) s h)
      ]

module _ {R : Type 0} ⦃fl : Float R⦄ (env : Env R) where
  start_next_step-IsRestored :
      (b : Bool) (s : State R) → IsBetween s → IsRestored (start_next_step env b s)
  unfolding start_next_step now_sim
  start_next_step-IsRestored b s h =
      let t : State R = record s {
        calls = s.calls + 1;
        exp = record s.exp { step_started_sim_s = env.now_sim s.calls };
      } in
      and_then-IsRestored (insert_step_row env t) (λ _. issue_next_step env b)
        (insert_step_row-IsRestored env t h) (λ _. issue_next_step-Keeps env b)

  advance-IsRestored :
      (s : State R)
      → IsBetween (record s { exp = (next_position s.exp).0 })
      → IsRestored (advance env s)
  unfolding advance
  advance-IsRestored s h = and_then-by IsBetween (move_on s) _ (move_on-IsBetween s h) (λ b t k.
      if-IsRestored (leb t.exp.schedule.repeat t.exp.cycle_index) (complete_experiment env)
        (start_next_step env b) t
        (λ done. IsSettled-IsRestored (complete_experiment env t) (
          Same-IsSettled t (complete_experiment env t).1 (complete_experiment-Keeps env t)
            (inr (leb→le t.exp.schedule.repeat t.exp.cycle_index done))))
        (start_next_step-IsRestored b t k))

  finish_step-IsRestored :
      (s : State R) → IsCurrent s → IsRestored ((mark_step_completed env >> advance env) s)
  unfolding mark_step_completed db
  finish_step-IsRestored s h = elim (Bool-cases (env.db_fails s.calls)) [
    | inl e ↦ rw e tt
    | inr e ↦
        let t : State R = record s {
          calls = s.calls + 1;
          steps = complete_row s.exp.id s.exp.cycle_index s.exp.step_index s.steps;
        } in
        rw e (
          advance-IsRestored t
            (completed-IsBetween s.exp h.0 t (complete_row-last s.exp h.0 s.steps h.1)))
  ]

  run_current-IsRestored :
      (snap : ChannelSnapshot R) (chem : ChemistryParams R) (step : Step R) (s : State R)
      → IsCurrent s
      → IsRestored (run_current env snap chem step s)
  unfolding run_current now_sim
  run_current-IsRestored snap chem step s h =
      let t : State R = record s { calls = s.calls + 1 } in
      if-IsRestored
        (end_condition_met step snap.voltage_v snap.current_a
          (fl.sub (env.now_sim s.calls) s.exp.step_started_sim_s) chem.capacity_ah_nominal)
        (mark_step_completed env >> advance env) (command_step env step chem) t
        (λ ended. finish_step-IsRestored t h)
        (IsSettled-IsRestored (command_step env step chem t) (
          Same-IsSettled t (command_step env step chem t).1 (command_step-Keeps env step chem t)
            (inl h)))

  -- If the part of a tick that follows on a channel without an error starts with the last row that of
  -- the step in memory and not completed, and returns without an exception, then the last row is again
  -- the one of the step in memory and not completed, or all cycles of the schedule are done.
  pub run_step-IsRestored :
      (snap : ChannelSnapshot R) (s : State R) → IsCurrent s → IsRestored (run_step env snap s)
  unfolding run_step
  run_step-IsRestored snap s h =
      and_then-by IsCurrent (chemistry_of env s) _
        (Same-IsCurrent s (chemistry_of env s).1 (chemistry_of-Keeps env s) h)
        (λ chem t k.
          and_then-by IsCurrent (current_step env t) _
            (Same-IsCurrent t (current_step env t).1 (current_step-Keeps env t) k)
            (λ step u l. run_current-IsRestored snap chem step u l))
