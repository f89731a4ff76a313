-- ===== src/Examples/OrchestratorRuns.antt =====
-- The theorems on the orchestrator at concrete inputs.
use battery_lab_sim.Prelude.{
  List, ◌∷◌, ℕ, ◌≡◌, refl, some, false, [], arith, ℕ_eq, get_elem?, String_eq, ◌==◌, if◌then◌else◌,
}
use battery_lab_sim.Prelude.Int.{ℤ, ltb_ℤ, ◌-ℤ◌}
use battery_lab_sim.Prelude.Float.{fixed_point, fixed_lit, fixed_abs, fixed_pack, fixed_unpack}
use battery_lab_sim.Prelude.Dict.{lookup}
use battery_lab_sim.Models.{is_error, cv}
use battery_lab_sim.Modbus.{chemistry_id_for_name}
use battery_lab_sim.Chemistry.{nmc_params, get_chemistry}
use battery_lab_sim.Cycler.Block.{function_block}
use battery_lab_sim.Cycler.Channel.{Channel}
use battery_lab_sim.Orchestrator.Client.{ChannelSnapshot, send_command, decode_channel}
use battery_lab_sim.Orchestrator.Client.Between.{deliver}
use battery_lab_sim.Orchestrator.Client.Delivery.{send_command-delivered}
use battery_lab_sim.Orchestrator.State.{Experiment, ok, running, failed}
use battery_lab_sim.Orchestrator.Build.{ExperimentRow, last_row}
use battery_lab_sim.Orchestrator.Executor.{run_step, step_one_tick}
use battery_lab_sim.Orchestrator.Executor.Halt.{step_one_tick-halted}
use battery_lab_sim.Orchestrator.Executor.Positions.{IsResumable}
use battery_lab_sim.Orchestrator.Executor.Recovery.{run_step-IsResumable}
use battery_lab_sim.Orchestrator.Sweep.{Connection}
use battery_lab_sim.Orchestrator.Resume.{resume_record}
use battery_lab_sim.Orchestrator.Resume.Quiet.{resume_record-silent}
use battery_lab_sim.Orchestrator.Kickoff.{kickoff_built}
use battery_lab_sim.Orchestrator.Kickoff.Orphan.{kickoff_built-orphans}
use battery_lab_sim.Examples.Samples.{
  whole, chassis, charge, schedule, experiment, first_step, hot_env, silent_env,
}

abbrev clock : ℕ → ℤ
clock n = whole n

send_command-delivered_example :
    let s' = deliver clock (send_command 0 cv (whole 4) 4200 600) chassis in
    let sent = fixed_unpack (fixed_pack (whole 4)) in
    (ch' : Channel ℤ) × (get_elem? s'.channels 0 ≡ some ch')
    × (ch'.mode ≡ cv)
    × (ch'.safety_v_max_mv ≡ 4200)
    × (ch'.safety_t_max_dc ≡ 600)
    × (ltb_ℤ (fixed_lit 1 9) (fixed_abs (ch'.setpoint -ℤ sent)) ≡ false)
unfolding is_error
send_command-delivered_example =
    send_command-delivered clock 0 cv (whole 4) 4200 600 chassis (omega arith) refl refl

abbrev full_charge : ChannelSnapshot ℤ
full_charge = decode_channel (λ k. if k == 5 then 4300 else 0)

-- The charge is over, and no chassis takes the command of the rest.
run_step-IsResumable_example : IsResumable (run_step silent_env full_charge first_step).1
unfolding last_row
run_step-IsResumable_example =
    run_step-IsResumable silent_env full_charge first_step ("charge", refl)

step_one_tick-halted_example :
    ((step_one_tick hot_env first_step).1.writes ≡ [])
    × ((step_one_tick hot_env first_step).1.exp.status ≡ failed)
unfolding is_error decode_channel
step_one_tick-halted_example = step_one_tick-halted hot_env first_step (refl, refl)

abbrev row : ExperimentRow
row = record {
  id = "exp-1";
  chassis_id = 1;
  channel_idx = 0;
  schedule_id = "formation";
  schedule_git_sha = "";
  status = running;
}

-- The channel reports another mode than the step's, and the command is sent again.
resume_record-silent_example :
    (resume_record hot_env (λ id. ok schedule) (1 ∷ []) row first_step).1.alerts ≡ []
resume_record-silent_example =
    resume_record-silent hot_env (λ id. ok schedule) (1 ∷ []) row first_step refl

kickoff_built-orphans_example :
    ((kickoff_built silent_env (some experiment) first_step).0 ≡ ok false)
    × (lookup "exp-1" (kickoff_built silent_env (some experiment) first_step).1.statuses
        ≡ some running)
unfolding get_chemistry chemistry_id_for_name
kickoff_built-orphans_example =
    kickoff_built-orphans silent_env experiment first_step charge nmc_params 1 refl refl refl
      (λ n. refl) refl

abbrev running_two : List (Experiment ℤ)
running_two = experiment ∷ record experiment { id = "exp-2"; channel_idx = 5 } ∷ []

abbrev wire : Connection
wire = record { calls = 0; writes = [] }
