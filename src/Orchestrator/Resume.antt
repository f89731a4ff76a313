-- ===== src/Orchestrator/Resume.antt =====
-- services/orchestrator/src/orchestrator/main.py: the resume of one running experiment at boot. The
-- experiment at hand is `State.exp`; logging is left out.
pub mod Drift
pub mod Quiet
use battery_lab_sim.Prelude.{
  ℕ, ◌+◌, String, Bool, true, false, not, ◌&&◌, Option, none, some, List, [], ◌∷◌, ◌++◌, ◌==◌, leb,
  if◌then◌else◌, any,
}
use battery_lab_sim.Prelude.Float.{Float}
use battery_lab_sim.Models.{is_error, ChannelMode, mode_beq}
use battery_lab_sim.Schedule.{Schedule, step_name, step_to_command}
use battery_lab_sim.Orchestrator.State.{
  Status, failed, Experiment, CriticalAlert, Env, Result, Action, pure, get, modify, modify_exp,
  catch_os, catch_postgres, ◌>>=◌, ◌>>◌,
}
use battery_lab_sim.Orchestrator.Tables.{
  db, now_sim, current_step, insert_step_row, mark_status_of, publish_context,
}
use battery_lab_sim.Orchestrator.Executor.{chemistry_of, read_channel, command, kick}
use battery_lab_sim.Orchestrator.Build.{ExperimentRow, build_experiment}

abbrev pub is_failed : Status → Bool
is_failed failed = true
is_failed _ = false

module _ {R : Type 0} ⦃fl : Float R⦄ (env : Env R) where
  -- `_emit_critical_alert`: a `PostgresError` is only logged.
  unfoldable pub emit_critical_alert : CriticalAlert → Action R (Unit {0})
  unfolding db
  emit_critical_alert alert =
      catch_postgres (db env λ s. record s { alerts = s.alerts ++ alert ∷ [] }) (pure tt)

  unfoldable pub alert_unreachable : ExperimentRow → Action R (Unit {0})
  unfolding emit_critical_alert
  alert_unreachable rec = do
    s ← get
    if any (λ c. c == rec.chassis_id) s.alerted_unreachable then pure tt else do
      modify (λ t. record t { alerted_unreachable = rec.chassis_id ∷ t.alerted_unreachable })
      emit_critical_alert (record {
        message = "unreachable_chassis_in_pending_experiment";
        chassis_id = rec.chassis_id;
        channel_idx = rec.channel_idx;
      })

  -- `_check_chassis_reachable`, with `known` the ids of the connected cyclers.
  unfoldable pub check_chassis_reachable : List ℕ → ExperimentRow → Action R Bool
  unfolding alert_unreachable mark_status_of
  check_chassis_reachable known rec =
      if any (λ c. c == rec.chassis_id) known
      then pure true
      else do mark_status_of env rec.id failed; alert_unreachable rec; pure false

  unfoldable pub fail_drift : Action R (Unit {0})
  unfolding emit_critical_alert mark_status_of
  fail_drift = do
    s ← get
    mark_status_of env s.exp.id failed
    emit_critical_alert (record {
      message = "mode_drift_persistent";
      chassis_id = s.exp.chassis_id;
      channel_idx = s.exp.channel_idx;
    })
    modify_exp (λ exp. record exp { status = failed })

  unfoldable pub reissue : ChannelMode → R → Action R (Unit {0})
  unfolding mark_status_of
  reissue mode setpoint = catch_os (command env mode setpoint >> kick env) (do
    s ← get
    mark_status_of env s.exp.id failed
    modify_exp (λ exp. record exp { status = failed }))

  -- `_handle_resume_drift`
  unfoldable pub handle_resume_drift : ChannelMode → R → Action R (Unit {0})
  unfolding fail_drift reissue
  handle_resume_drift mode setpoint = do
    modify_exp (λ exp. record exp { resume_drift_count = exp.resume_drift_count + 1 })
    s ← get
    if leb 2 s.exp.resume_drift_count then fail_drift else reissue mode setpoint

  -- The end of a successful resume: the step's timer starts again, its row and context are restored.
  unfoldable pub restart_step : Action R Bool
  unfolding now_sim insert_step_row
  restart_step = do
    now ← now_sim env
    modify_exp (λ exp. record exp { step_started_sim_s = now })
    insert_step_row env
    step ← current_step env
    publish_context (step_name step)
    pure true

  -- From the comparison of the modes on.
  unfoldable pub settle_drift : ChannelMode → ChannelMode × R → Action R Bool
  unfolding handle_resume_drift restart_step
  settle_drift actual wanted = do
    if mode_beq actual wanted.0 then pure tt else handle_resume_drift wanted.0 wanted.1
    s ← get
    if not (mode_beq actual wanted.0) && is_failed s.exp.status then pure false else restart_step

  unfoldable pub check_drift : ChannelMode → Action R Bool
  unfolding settle_drift
  check_drift actual = do
    chem ← chemistry_of env
    step ← current_step env
    settle_drift actual
        (step_to_command step chem.capacity_ah_nominal (some chem.max_charge_c_rate))

  -- The channel of a built experiment is read; an `OSError` skips the experiment, here `none`.
  unfoldable pub read_or_skip : Action R (Option (ChannelMode × Bool))
  unfolding is_error
  read_or_skip =
      catch_os (do snap ← read_channel env; pure (some (snap.mode, is_error snap.last_error)))
        (pure none)

  unfoldable pub resume_built : Option (ChannelMode × Bool) → Action R Bool
  unfolding check_drift mark_status_of
  resume_built none = pure false
  resume_built (some (actual, true)) = do s ← get; mark_status_of env s.exp.id failed; pure false
  resume_built (some (actual, false)) = check_drift actual

  unfoldable pub resume_experiment : Option (Experiment R) → Action R Bool
  unfolding read_or_skip resume_built
  resume_experiment none = pure false
  resume_experiment (some exp) = do
    modify_exp (λ _. exp)
    outcome ← read_or_skip
    resume_built outcome

  -- The body of `resume_one_chassis` for one row; true if the experiment is taken up again.
  unfoldable pub resume_record :
      (String → Result (Schedule R)) → List ℕ → ExperimentRow → Action R Bool
  unfolding check_chassis_reachable build_experiment resume_experiment
  resume_record schedules known rec = do
    reachable ← check_chassis_reachable known rec
    if not reachable
        then pure false
        else do built ← build_experiment env schedules rec; resume_experiment built
