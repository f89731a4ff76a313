-- ===== src/Orchestrator/Executor/Mirror.antt =====
-- services/orchestrator/src/orchestrator/executor.py: a tick keeps the row of a running experiment at
-- 'running', whatever fails.
use battery_lab_sim.Prelude.{
  ◌+◌, ◌≡◌, ◌≢◌, sym, ap, subst, String, String_eq, Bool, true, false, some, List, Bool-cases, inl,
  inr, if◌then◌else◌, leb,
}
use battery_lab_sim.Prelude.Float.{Float}
use battery_lab_sim.Prelude.Dict.{lookup, lookup-insert}
use battery_lab_sim.Models.{idle, is_error}
use battery_lab_sim.Chemistry.{ChemistryParams}
use battery_lab_sim.Schedule.{Step, end_condition_met}
use battery_lab_sim.Orchestrator.Client.{ChannelSnapshot}
use battery_lab_sim.Orchestrator.State.{
  os_error, postgres_error, value_error, index_error, schedule_error, validation_error, State, Env,
  Status, running, completed, failed, Result, ok, raise, Action, pure, and_then, on_os_error, ◌>>◌,
}
use battery_lab_sim.Orchestrator.Tables.{
  db, now_sim, current_step, mark_step_completed, mark_status_of, mark_experiment_status,
  clear_context,
}
use battery_lab_sim.Orchestrator.Executor.{
  move_on, read_channel, chemistry_of, command, command_step, complete_experiment, start_next_step,
  advance, fail_halted, run_current, run_step, step_one_tick,
}
use battery_lab_sim.Orchestrator.Executor.Outside.{
  Leaves, current_step-Leaves, chemistry_of-Leaves, command-Leaves, command_step-Leaves,
  read_channel-Leaves,
}
use battery_lab_sim.Orchestrator.Kickoff.{tick}
use battery_lab_sim.Orchestrator.Executor.Statuses.{
  View, view, inside-view, move_on-view, mark_step_completed-view, start_next_step-view,
}

-- The rows of the other experiments are as at the start, and if the experiment runs, its row says so.
abbrev pub IsMirrored : String → List (String × Status) → View → Type 0
IsMirrored id start v =
    (v.0 ≡ id)
    × ((k : String) → String_eq.beq id k ≡ false → lookup k v.2 ≡ lookup k start)
    × (v.1 ≡ running → lookup id v.2 ≡ some running)

module _ {R : Type 0} (id : String) (start : List (String × Status)) where
  abbrev pub Good : State R → Type 0
  Good s = IsMirrored id start (view s)

  abbrev Mirrors : {A : Type 0} → Action R A → Type 0
  Mirrors m = (s : State R) → Good s → Good (m s).1

  view-Mirrors : {A : Type 0} (m : Action R A) → Leaves view m → Mirrors m
  view-Mirrors m h s g = subst (IsMirrored id start) (sym (h s)) g

  and_then-Mirrors :
      {A B : Type 0} (r : Result A × State R) (f : A → Action R B)
      → Good r.1
      → ((a : A) → Mirrors (f a))
      → Good (and_then r f).1
  and_then-Mirrors (ok a, t) f h k = k a t h
  and_then-Mirrors (raise e, t) f h k = h

  -- The same from a state whose experiment has a given status.
  and_then-ended :
      {A B : Type 0} (status : Status) (r : Result A × State R) (f : A → Action R B)
      → Good r.1
      → r.1.exp.status ≡ status
      → ((a : A) (t : State R) → Good t → t.exp.status ≡ status → Good (f a t).1)
      → Good (and_then r f).1
  and_then-ended status (ok a, t) f h e k = k a t h e
  and_then-ended status (raise x, t) f h e k = h

  if-Mirrors :
      {A : Type 0} (b : Bool) (m n : Action R A) (s : State R)
      → Good (m s).1
      → Good (n s).1
      → Good ((if b then m else n) s).1
  if-Mirrors true m n s h k = h
  if-Mirrors false m n s h k = k

  -- The experiment ends first in memory, and then in its row.
  end_as :
      (status : Status) (s : State R)
      → status ≢ running
      → Good s
      → Good (record s { exp = record s.exp { status = status } })
  end_as status s n g = (g.0, g.1, λ e. absurd (n e))

  mark-Mirrors :
      (env : Env R) (status : Status) (s : State R)
      → s.exp.status ≢ running
      → Good s
      → Good (mark_experiment_status env status s).1
  unfolding mark_experiment_status mark_status_of db
  mark-Mirrors env status s n g = elim (Bool-cases (env.db_fails s.calls)) [
    | inl e ↦ rw e g
    | inr e ↦ rw e (
      g.0,
      λ k other. rw (lookup-insert s.exp.id k status s.statuses, g.0, other) (g.1 k other),
      λ e. absurd (n e),
    )
  ]

  module _ ⦃fl : Float R⦄ (env : Env R) where
    finish_quietly : Mirrors (command env idle (fl.lit 0 0) >> clear_context)
    unfolding clear_context
    finish_quietly s g =
        and_then-Mirrors (command env idle (fl.lit 0 0) s) (λ _. clear_context)
          (view-Mirrors (command env idle (fl.lit 0 0))
            (inside-view (command env idle (fl.lit 0 0)) (command-Leaves env idle (fl.lit 0 0))) s
            g)
          (λ _ t h. h)

    complete_experiment-Mirrors : Mirrors (complete_experiment env)
    unfolding complete_experiment
    complete_experiment-Mirrors s g =
        let ended = record s { exp = record s.exp { status = completed } } in
        and_then-Mirrors (mark_experiment_status env completed ended) _
          (mark-Mirrors env completed ended (λ e. cc) (end_as completed s (λ e. cc) g))
          (λ _. finish_quietly)

    fail_halted-Mirrors : Mirrors (fail_halted env)
    unfolding fail_halted clear_context
    fail_halted-Mirrors s g =
        let ended = record s { exp = record s.exp { status = failed } } in
        and_then-ended failed (mark_step_completed env ended) _
          (view-Mirrors (mark_step_completed env) (mark_step_completed-view env) ended
            (end_as failed s (λ e. cc) g))
          (ap (λ (v : View). v.1) (mark_step_completed-view env ended))
          (λ _ t h e.
            and_then-Mirrors (mark_experiment_status env failed t) (λ _. clear_context)
              (mark-Mirrors env failed t (λ k. cc) h) (λ _ u k. k))

    advance-Mirrors : Mirrors (advance env)
    unfolding advance
    advance-Mirrors s g =
        and_then-Mirrors (move_on s) _ (view-Mirrors move_on move_on-view s g) (λ wrapped t h.
          if-Mirrors (leb t.exp.schedule.repeat t.exp.cycle_index) (complete_experiment env)
            (start_next_step env wrapped) t (complete_experiment-Mirrors t h)
            (view-Mirrors (start_next_step env wrapped) (start_next_step-view env wrapped) t h))

    run_current-Mirrors :
        (snap : ChannelSnapshot R) (chem : ChemistryParams R) (step : Step R)
        → Mirrors (run_current env snap chem step)
    unfolding run_current now_sim
    run_current-Mirrors snap chem step s g =
        let t = record s { calls = s.calls + 1 } in
        let elapsed = fl.sub (env.now_sim s.calls) s.exp.step_started_sim_s in
        if-Mirrors
          (end_condition_met step snap.voltage_v snap.current_a elapsed chem.capacity_ah_nominal)
          (mark_step_completed env >> advance env) (command_step env step chem) t
          (and_then-Mirrors (mark_step_completed env t) (λ _. advance env)
            (view-Mirrors (mark_step_completed env) (mark_step_completed-view env) t g)
            (λ _. advance-Mirrors))
          (view-Mirrors (command_step env step chem)
            (inside-view (command_step env step chem) (command_step-Leaves env step chem)) t g)

    run_step-Mirrors : (snap : ChannelSnapshot R) → Mirrors (run_step env snap)
    unfolding run_step
    run_step-Mirrors snap s g =
        and_then-Mirrors (chemistry_of env s) _
          (view-Mirrors (chemistry_of env)
            (inside-view (chemistry_of env) (chemistry_of-Leaves env)) s g)
          (λ chem t h.
            and_then-Mirrors (current_step env t) _
              (view-Mirrors (current_step env)
                (inside-view (current_step env) (current_step-Leaves env)) t h)
              (λ step. run_current-Mirrors snap chem step))

    step_one_tick-Mirrors : Mirrors (step_one_tick env)
    unfolding step_one_tick
    step_one_tick-Mirrors s g =
        and_then-Mirrors (read_channel env s) _
          (view-Mirrors (read_channel env)
            (inside-view (read_channel env) (read_channel-Leaves env)) s g)
          (λ snap t h.
            if-Mirrors (is_error snap.last_error) (fail_halted env) (run_step env snap) t
              (fail_halted-Mirrors t h) (run_step-Mirrors snap t h))

    caught : (r : Result (Unit {0}) × State R) → Good r.1 → Good (on_os_error (pure tt) r).1
    caught (ok x, t) h = h
    caught (raise os_error, t) h = h
    caught (raise postgres_error, t) h = h
    caught (raise value_error, t) h = h
    caught (raise index_error, t) h = h
    caught (raise schedule_error, t) h = h
    caught (raise validation_error, t) h = h

    -- A tick keeps the mirror of its experiment, whatever fails.
    pub tick-Mirrors : (s : State R) → Good s → Good (tick env s).1
    unfolding tick
    tick-Mirrors s g = caught (step_one_tick env s) (step_one_tick-Mirrors s g)
