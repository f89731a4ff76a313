-- ===== src/Orchestrator/Executor/Positions.antt =====
-- services/orchestrator/src/orchestrator/executor.py and main.py: how the rows of an experiment stand to
-- its position in memory.
use battery_lab_sim.Prelude.{
  ◌≡◌, refl, sym, subst, ◌∙◌, String, String_eq, true, false, some, List, arith, Bool-cases, inl,
  inr, length,
}
use battery_lab_sim.Orchestrator.State.{Experiment, State, StepRow}
use battery_lab_sim.Orchestrator.Tables.{new_row, insert_row, complete_row, enqueue_cycle_complete}
use battery_lab_sim.Orchestrator.Build.{last_row, resume_position}
use battery_lab_sim.Orchestrator.Build.Journal.{
  is_ahead, last_row-complete_row, any-same_step-ahead, last_row-snoc,
}
use battery_lab_sim.Orchestrator.Executor.{next_position, move_on}
use battery_lab_sim.Orchestrator.Executor.Frame.{Footprint, Same}

module _ {R : Type 0} where
  -- A restart would resume at the position that is in memory.
  abbrev pub IsResumable : State R → Type 0
  IsResumable s =
      resume_position (length s.exp.schedule.steps) (last_row s.exp.id s.steps)
      ≡ (s.exp.cycle_index, s.exp.step_index)

  -- The last row is the one of the step in memory, and not completed.
  abbrev pub IsCurrent : State R → Type 0
  IsCurrent s = (name : String) × (last_row s.exp.id s.steps ≡ some (new_row s.exp name))

  -- The step in memory has no row yet, nor has any after it.
  abbrev pub IsAhead : State R → Type 0
  IsAhead s = is_ahead s.exp.cycle_index s.exp.step_index (last_row s.exp.id s.steps) ≡ true

  pub Same-IsResumable : (s t : State R) → Same s t → IsResumable s → IsResumable t
  Same-IsResumable s t e h =
      subst
        (λ (p : Footprint R). resume_position (length p.2.steps) (last_row p.1 p.0) ≡ (p.3, p.4))
        (sym e) h

  pub Same-IsCurrent : (s t : State R) → Same s t → IsCurrent s → IsCurrent t
  Same-IsCurrent s t e h =
      subst
        (λ (p : Footprint R).
          (name : String) × (last_row p.1 p.0
            ≡ some (record {
              experiment_id = p.1;
              cycle_index = p.3;
              step_index = p.4;
              step_name = name;
              completed = false;
            })))
        (sym e) h

  pub IsCurrent-IsResumable : (s : State R) → IsCurrent s → IsResumable s
  unfolding resume_position
  IsCurrent-IsResumable s h = rw h.1

  pub insert_row-last :
      (exp : Experiment R) (name : String) (rows : List StepRow)
      → is_ahead exp.cycle_index exp.step_index (last_row exp.id rows) ≡ true
      → last_row exp.id (insert_row (new_row exp name) rows) ≡ some (new_row exp name)
  unfolding insert_row
  insert_row-last exp name rows h =
      rw (any-same_step-ahead exp.id exp.cycle_index exp.step_index rows h)
        (last_row-snoc exp.id (new_row exp name) rows ((String_eq.beq_iff exp.id exp.id).1 refl) h)

  pub complete_row-last :
      (exp : Experiment R) (name : String) (rows : List StepRow)
      → last_row exp.id rows ≡ some (new_row exp name)
      → last_row exp.id (complete_row exp.id exp.cycle_index exp.step_index rows)
        ≡ some (record (new_row exp name) { completed = true })
  complete_row-last exp name rows h =
      last_row-complete_row exp.id exp.cycle_index exp.step_index rows
      ∙ rw h (ground (arith, (String_eq.beq_iff exp.id exp.id).1 refl))

  pub next_position-id : (exp : Experiment R) → (next_position exp).0.id ≡ exp.id
  unfolding next_position
  next_position-id exp = ground arith

  pub next_position-schedule : (exp : Experiment R) → (next_position exp).0.schedule ≡ exp.schedule
  unfolding next_position
  next_position-schedule exp = ground arith

  -- A state in which the step in memory is the one after the last row, which is completed.
  abbrev pub IsBetween : State R → Type 0
  IsBetween s = IsResumable s × IsAhead s

  -- Once the row of the step in memory is completed, a restart resumes at the next position.
  pub completed-IsBetween :
      (exp : Experiment R) (name : String) (s : State R)
      → last_row exp.id s.steps ≡ some (record (new_row exp name) { completed = true })
      → IsBetween (record s { exp = (next_position exp).0 })
  unfolding resume_position next_position
  completed-IsBetween exp name s h =
      rw (next_position-id exp, next_position-schedule exp, h) (ground arith)

  pub Same-IsBetween : (s t : State R) → Same s t → IsBetween s → IsBetween t
  Same-IsBetween s t e h = (
    Same-IsResumable s t e h.0,
    subst (λ (p : Footprint R). is_ahead p.3 p.4 (last_row p.1 p.0) ≡ true) (sym e) h.1,
  )

  pub move_on-IsBetween :
      (s : State R)
      → IsBetween (record s { exp = (next_position s.exp).0 })
      → IsBetween (move_on s).1
  unfolding move_on enqueue_cycle_complete
  move_on-IsBetween s h = elim (Bool-cases (next_position s.exp).1) [
    | inl e ↦ rw e h
    | inr e ↦ rw e h
  ]
