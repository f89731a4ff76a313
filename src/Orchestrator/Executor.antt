-- ===== src/Orchestrator/Executor.antt =====
-- services/orchestrator/src/orchestrator/executor.py: one tick of an experiment, the advance to the
-- next step, and the kickoff.
pub mod Outside
pub mod Statuses
pub mod Mirror
pub mod Frame
pub mod Halt
pub mod Positions
pub mod Recovery
pub mod Renewal
use battery_lab_sim.Prelude.{ℕ, ◌+◌, Bool, true, false, some, ◌==◌, leb, if◌then◌else◌, length}
use battery_lab_sim.Prelude.Float.{Float}
use battery_lab_sim.Models.{is_error, ChannelMode, idle}
use battery_lab_sim.Modbus.{channel_base, ChassisReg, chassis_address, chemistry_id_for_name}
use battery_lab_sim.Chemistry.{ChemistryParams, get_chemistry}
use battery_lab_sim.Schedule.{Step, step_name, step_to_command, end_condition_met}
use battery_lab_sim.Orchestrator.Client.{
  ChannelSnapshot, decode_channel, send_command, kick_channel, set_cycle_index,
  write_chassis_chemistry, default_v_max_mv, default_t_max_dc,
}
use battery_lab_sim.Orchestrator.State.{
  value_error, running, completed, failed, Experiment, Env, Action, pure, get, modify_exp, or_raise,
  ◌>>=◌, ◌>>◌,
}
use battery_lab_sim.Orchestrator.Tables.{
  modbus_write, modbus_writes, modbus_read, now_sim, current_step, insert_step_row,
  mark_step_completed, mark_experiment_status, enqueue_cycle_complete, publish_context,
  clear_context,
}

module _ {R : Type 0} where
  -- The position after `exp.step_index += 1`, and whether the cycle wrapped.
  unfoldable pub next_position : Experiment R → Experiment R × Bool
  next_position exp =
      if leb (length exp.schedule.steps) (exp.step_index + 1)
      then (record exp { cycle_index = exp.cycle_index + 1; step_index = 0 }, true)
      else (record exp { step_index = exp.step_index + 1 }, false)

  -- `exp.step_index += 1`, with the wrap and its event; true if the cycle advanced.
  unfoldable pub move_on : Action R Bool
  unfolding next_position enqueue_cycle_complete
  move_on = do
    s ← get
    let next = next_position s.exp
    if next.1 then enqueue_cycle_complete else pure tt
    modify_exp (λ exp. next.0)
    pure next.1

module _ {R : Type 0} ⦃fl : Float R⦄ (env : Env R) where
  -- `get_chemistry(exp.schedule.chemistry)`
  unfoldable pub chemistry_of : Action R (ChemistryParams R)
  chemistry_of s = or_raise value_error (get_chemistry s.exp.schedule.chemistry) s

  -- `cycler.read_channel(exp.channel_idx)`
  unfoldable pub read_channel : Action R (ChannelSnapshot R)
  unfolding modbus_read
  read_channel = do
    s ← get
    answer ← modbus_read env
    pure (decode_channel (λ offset. answer (channel_base s.exp.channel_idx + offset)))

  -- `cycler.send_command(exp.channel_idx, mode, setpoint)`, with the limits' defaults.
  unfoldable pub command : ChannelMode → R → Action R (Unit {0})
  command mode setpoint = do
    s ← get
    modbus_writes env
        (send_command s.exp.channel_idx mode setpoint default_v_max_mv default_t_max_dc)

  unfoldable pub kick : Action R (Unit {0})
  kick = do s ← get; modbus_write env (kick_channel s.exp.channel_idx)

  unfoldable pub stamp_cycle : Action R (Unit {0})
  stamp_cycle = do s ← get; modbus_write env (set_cycle_index s.exp.channel_idx s.exp.cycle_index)

  -- The command of a step, and the kick behind it.
  unfoldable pub command_step : Step R → ChemistryParams R → Action R (Unit {0})
  command_step step chem = do
    let wanted = step_to_command step chem.capacity_ah_nominal (some chem.max_charge_c_rate)
    command wanted.0 wanted.1
    kick

  unfoldable pub complete_experiment : Action R (Unit {0})
  complete_experiment = do
    modify_exp (λ exp. record exp { status = completed })
    mark_experiment_status env completed
    command idle (fl.lit 0 0)
    clear_context

  -- The stamp of a new cycle, the context and the command of the step that begins.
  unfoldable pub issue_next_step : Bool → Action R (Unit {0})
  issue_next_step cycle_advanced = do
    chem ← chemistry_of
    next_step ← current_step env
    if cycle_advanced then stamp_cycle else pure tt
    publish_context (step_name next_step)
    command_step next_step chem

  unfoldable pub start_next_step : Bool → Action R (Unit {0})
  start_next_step cycle_advanced = do
    now ← now_sim env
    modify_exp (λ exp. record exp { step_started_sim_s = now })
    insert_step_row env
    issue_next_step cycle_advanced

  -- `_advance`
  unfoldable pub advance : Action R (Unit {0})
  unfolding move_on
  advance = do
    cycle_advanced ← move_on
    s ← get
    if leb s.exp.schedule.repeat s.exp.cycle_index
        then complete_experiment
        else start_next_step cycle_advanced

  unfoldable pub fail_halted : Action R (Unit {0})
  fail_halted = do
    modify_exp (λ exp. record exp { status = failed })
    mark_step_completed env
    mark_experiment_status env failed
    clear_context

  -- The elapsed time decides whether the step ends or its command is sent again.
  unfoldable pub run_current : ChannelSnapshot R → ChemistryParams R → Step R → Action R (Unit {0})
  run_current snap chem step = do
    now ← now_sim env
    s ← get
    let elapsed = fl.sub now s.exp.step_started_sim_s
    if end_condition_met step snap.voltage_v snap.current_a elapsed chem.capacity_ah_nominal
        then (mark_step_completed env >> advance)
        else command_step step chem

  unfoldable pub run_step : ChannelSnapshot R → Action R (Unit {0})
  run_step snap = do chem ← chemistry_of; step ← current_step env; run_current snap chem step

  -- `step_one_tick`
  unfoldable pub step_one_tick : Action R (Unit {0})
  unfolding is_error
  step_one_tick = do
    snap ← read_channel
    if is_error snap.last_error then fail_halted else run_step snap

  -- `cycler.read_chassis_chemistry()`
  unfoldable pub read_chassis_chemistry : Action R ℕ
  unfolding modbus_read chassis_address
  read_chassis_chemistry = do
    answer ← modbus_read env
    pure (answer (chassis_address ChassisReg.chemistry))

  unfoldable pub reject_chemistry : Action R (Unit {0})
  reject_chemistry = do
    modify_exp (λ exp. record exp { status = failed })
    mark_experiment_status env failed

  unfoldable pub first_command : ChemistryParams R → Action R (Unit {0})
  first_command chem = do
    first_step ← current_step env
    stamp_cycle
    publish_context (step_name first_step)
    command_step first_step chem

  -- From the write of the chassis's chemistry to the first command.
  unfoldable pub set_up_chassis : ChemistryParams R → Action R (Unit {0})
  set_up_chassis chem = do
    s ← get
    chem_id ← or_raise value_error (chemistry_id_for_name s.exp.schedule.chemistry)
    modbus_write env (write_chassis_chemistry chem_id)
    rb ← read_chassis_chemistry
    if rb == chem_id then first_command chem else reject_chemistry

  -- `kickoff`
  unfoldable pub kickoff : Action R (Unit {0})
  kickoff = do
    modify_exp (λ exp. record exp { status = running })
    now ← now_sim env
    modify_exp (λ exp. record exp { step_started_sim_s = now })
    mark_experiment_status env running
    insert_step_row env
    chem ← chemistry_of
    set_up_chassis chem
