-- ===== src/Orchestrator/Executor/Halt.antt =====
-- services/orchestrator/src/orchestrator/executor.py: a tick that finds the channel halted, and the
-- position of the next step.
use battery_lab_sim.Prelude.{
  ℕ, ◌+◌, ◌<◌, ◌≡◌, refl, String_eq, true, false, some, arith, Bool-cases, inl, inr, length,
}
use battery_lab_sim.Prelude.Float.{Float}
use battery_lab_sim.Prelude.Dict.{lookup, lookup-insert}
use battery_lab_sim.Models.{is_error}
use battery_lab_sim.Modbus.{channel_base}
use battery_lab_sim.Orchestrator.Client.{decode_channel}
use battery_lab_sim.Orchestrator.State.{Experiment, State, Env, failed}
use battery_lab_sim.Orchestrator.Tables.{
  db, modbus_read, mark_status_of, mark_experiment_status, mark_step_completed, clear_context,
}
use battery_lab_sim.Orchestrator.Executor.{next_position, read_channel, fail_halted, step_one_tick}

module _ {R : Type 0} where
  -- The position after a step of the schedule is a step of the schedule.
  pub next_position-in_range :
      (exp : Experiment R)
      → exp.step_index < length exp.schedule.steps
      → (next_position exp).0.step_index < length (next_position exp).0.schedule.steps
  unfolding next_position
  next_position-in_range exp h = ground arith

module _ {R : Type 0} ⦃fl : Float R⦄ (env : Env R) (s : State R) where
  -- The channel answers, and its answer has an error in it.
  abbrev pub IsHalted : Type 0
  IsHalted =
      (env.modbus_fails s.calls ≡ false)
      × (is_error
            (decode_channel {R = R}
              (λ k. env.register s.calls (channel_base s.exp.channel_idx + k))).last_error
          ≡ true)

  -- A tick that finds a halted channel sends it nothing and fails the experiment, whatever the
  -- database does.
  pub step_one_tick-halted :
      IsHalted
      → ((step_one_tick env s).1.writes ≡ s.writes) × ((step_one_tick env s).1.exp.status ≡ failed)
  unfolding step_one_tick read_channel modbus_read fail_halted mark_step_completed
      mark_experiment_status mark_status_of db clear_context
  step_one_tick-halted h = elim (Bool-cases (env.db_fails (s.calls + 1))) [
    | inl e ↦ rw (h.0, h.1, e) (refl, refl)
    | inr e ↦ elim (Bool-cases (env.db_fails (s.calls + 1 + 1))) [
      | inl d ↦ rw (h.0, h.1, e, d) (refl, refl)
      | inr d ↦ rw (h.0, h.1, e, d) (refl, refl)
    ]
  ]

  -- If a tick finds a halted channel and every call of the database answers, the experiment is
  -- failed in the database.
  pub step_one_tick-marks_failed :
      IsHalted
      → ((n : ℕ) → env.db_fails n ≡ false)
      → lookup s.exp.id (step_one_tick env s).1.statuses ≡ some failed
  unfolding step_one_tick read_channel modbus_read fail_halted mark_step_completed
      mark_experiment_status mark_status_of db clear_context
  step_one_tick-marks_failed h d =
      rw
        (
          h.0,
          h.1,
          d (s.calls + 1),
          d (s.calls + 1 + 1),
          lookup-insert s.exp.id s.exp.id failed s.statuses,
          (String_eq.beq_iff s.exp.id s.exp.id).1 refl,
        )
        refl
