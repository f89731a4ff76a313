-- ===== src/Orchestrator/Kickoff/Orphan.antt =====
-- services/orchestrator/src/orchestrator/main.py and executor.py: a kickoff whose first Modbus write fails.
use battery_lab_sim.Prelude.{ℕ, ◌+◌, ◌≡◌, refl, String_eq, true, false, some, get_elem?}
use battery_lab_sim.Prelude.Float.{Float}
use battery_lab_sim.Prelude.Dict.{insert, lookup, lookup-insert}
use battery_lab_sim.Chemistry.{ChemistryParams, get_chemistry}
use battery_lab_sim.Schedule.{Step, step_name}
use battery_lab_sim.Modbus.{chemistry_id_for_name}
use battery_lab_sim.Orchestrator.State.{Experiment, State, Env, os_error, ok, raise, running}
use battery_lab_sim.Orchestrator.Tables.{
  db, modbus_write, now_sim, current_step, insert_named, new_row, insert_row, insert_step_row,
  mark_status_of, mark_experiment_status,
}
use battery_lab_sim.Orchestrator.Executor.{chemistry_of, set_up_chassis, kickoff}
use battery_lab_sim.Orchestrator.Kickoff.{kickoff_built}

module _ {R : Type 0} ⦃fl : Float R⦄ (env : Env R) where
  set_up_chassis-unreachable :
      (chem : ChemistryParams R) (t : State R) (id : ℕ)
      → chemistry_id_for_name t.exp.schedule.chemistry ≡ some id
      → env.modbus_fails t.calls ≡ true
      → set_up_chassis env chem t ≡ (raise os_error, record t { calls = t.calls + 1 })
  unfolding set_up_chassis modbus_write
  set_up_chassis-unreachable chem t id hi hm = rw (hi, hm) refl

  -- If the chassis does not answer the first write of a kickoff, the database answers, and the
  -- schedule has the step and a known chemistry, then the experiment is not tracked, and its row
  -- says that it runs.
  pub kickoff_built-orphans :
      (exp : Experiment R) (s : State R) (step : Step R) (chem : ChemistryParams R) (id : ℕ)
      → get_elem? exp.schedule.steps exp.step_index ≡ some step
      → get_chemistry exp.schedule.chemistry ≡ some chem
      → chemistry_id_for_name exp.schedule.chemistry ≡ some id
      → ((n : ℕ) → env.db_fails n ≡ false)
      → env.modbus_fails (s.calls + 1 + 1 + 1) ≡ true
      → ((kickoff_built env (some exp) s).0 ≡ ok false)
        × (lookup exp.id (kickoff_built env (some exp) s).1.statuses ≡ some running)
  unfolding kickoff_built kickoff now_sim mark_experiment_status mark_status_of insert_step_row
      insert_named db current_step chemistry_of modbus_write
  kickoff_built-orphans exp s step chem id hs hc hi hd hm =
      let started : Experiment R = record exp {
        status = running;
        step_started_sim_s = env.now_sim s.calls;
      } in
      let t : State R = record s {
        exp = started;
        calls = s.calls + 1 + 1 + 1;
        statuses = insert exp.id running s.statuses;
        steps = insert_row (new_row started (step_name step)) s.steps;
      } in
      rw
        (hd (s.calls + 1), hs, hd (s.calls + 1 + 1), hc, set_up_chassis-unreachable chem t id hi hm)
        (
          refl,
          rw
              (
                lookup-insert exp.id exp.id running s.statuses,
                (String_eq.beq_iff exp.id exp.id).1 refl,
              )
              refl,
        )
