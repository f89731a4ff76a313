-- ===== src/Examples/Samples.antt =====
-- The inputs of the examples.
use battery_lab_sim.Prelude.{ℕ, ◌*◌, true, false, some, none, [], ◌∷◌}
use battery_lab_sim.Prelude.Int.{ℤ, pos, negsuc}
use battery_lab_sim.Prelude.Float.{fixed_point}
use battery_lab_sim.Models.{ErrorCode, overtemp, idle, cc}
use battery_lab_sim.Chemistry.{nmc_params}
use battery_lab_sim.Cell.{new_cell}
use battery_lab_sim.Cycler.Block.{function_block}
use battery_lab_sim.Cycler.Channel.{Channel}
use battery_lab_sim.Cycler.Registers.{Chassis}
use battery_lab_sim.Schedule.{Step, rest_step, cc_step, Schedule}
use battery_lab_sim.Orchestrator.State.{Experiment, State, Env, running}
use battery_lab_sim.Watchdog.Alerts.{Alert, Sink, critical}

-- A number of seconds, volts or amperes.
abbrev pub whole : ℕ → ℤ
whole n = pos (n * 1000000000)

-- A channel that charges at 1.5 A and was kicked at 0 s.
abbrev pub charging : Channel ℤ
charging = record {
  idx = 0;
  cell = new_cell nmc_params;
  mode = cc;
  setpoint = negsuc 1499999999;
  safety_v_max_mv = 4300;
  safety_t_max_dc = 600;
  last_kick_wall_s = whole 0;
  latched_error = ErrorCode.none;
  cycle_index = 0;
  cv_kp = whole 9;
  cv_current_limit_a = whole 6;
}

-- A channel that was halted.
abbrev pub halted : Channel ℤ
halted = record charging { mode = idle; setpoint = whole 0; latched_error = overtemp }

abbrev pub chassis : Chassis ℤ (ℕ → ℕ)
chassis = record {
  channels = charging ∷ halted ∷ [];
  kick_state = record { last_kick_wall_s = whole 0; tripped = false };
  block = λ address. 0;
}

abbrev pub charge : Step ℤ
charge = cc_step "charge" (negsuc 499999999) (record {
  voltage_v_above = some (whole 4);
  voltage_v_below = none;
  current_a_below_c_rate = none;
  max_duration_s = none;
})

abbrev pub schedule : Schedule ℤ
schedule = record {
  schedule_id = "formation";
  chemistry = "NMC";
  chassis = 1 ∷ [];
  channels_per_chassis = 2;
  chamber = record { setpoint_c = whole 25; soak_seconds = whole 0 };
  steps = charge ∷ rest_step "rest" (whole 60) ∷ [];
  repeat = 2;
}

abbrev pub experiment : Experiment ℤ
experiment = record {
  id = "exp-1";
  chassis_id = 1;
  channel_idx = 0;
  schedule = schedule;
  schedule_git_sha = "";
  cycle_index = 0;
  step_index = 0;
  step_started_sim_s = whole 0;
  status = running;
  resume_drift_count = 0;
}

-- The state in the first step, with its row.
abbrev pub first_step : State ℤ
first_step = record {
  exp = experiment;
  calls = 0;
  statuses = ("exp-1", running) ∷ [];
  steps =
      (record {
        experiment_id = "exp-1";
        cycle_index = 0;
        step_index = 0;
        step_name = "charge";
        completed = false;
      })
      ∷ [];
  alerts = [];
  alerted_unreachable = [];
  writes = [];
  contexts = [];
  events = [];
}

-- Everything answers, and every register reads 2: `overtemp` where it is an error.
abbrev pub hot_env : Env ℤ
hot_env = record {
  modbus_fails = λ n. false;
  db_fails = λ n. false;
  register = λ n address. 2;
  now_sim = λ n. whole 10;
}

-- No chassis answers.
abbrev pub silent_env : Env ℤ
silent_env = record hot_env { modbus_fails = λ n. true }

abbrev pub alarm : Alert
alarm = record {
  severity = critical;
  source = "watchdog.fleet";
  message = "mass_chassis_failure";
  chassis_id = none;
  channel_idx = none;
}

abbrev pub empty_sink : Sink
empty_sink = record { retry = []; rows = []; published = []; db_calls = 0; mqtt_calls = 0 }
