-- ===== src/Cycler/Channel.antt =====
-- services/cycler/src/cycler/channel.py: one cell with its control law and safety latch. A method
-- that reads `time.monotonic()` takes the reading as its argument `now`. The field
-- `_last_published_mode`, which no code reads, is left out, and so is logging.
pub mod Laws
use battery_lab_sim.Prelude.{ℕ, ◌*◌, Bool, true, false, not, ◌&&◌, ◌||◌, ◌==◌, if◌then◌else◌}
use battery_lab_sim.Prelude.Int.{ℤ, clamp_ℕ}
use battery_lab_sim.Prelude.Float.{Float, fmin, fmax}
use battery_lab_sim.Models.{
  ErrorCode, is_error, ChannelMode, idle, cc, cv, cp, rest, mode_beq, CellState,
}
use battery_lab_sim.Cell
use battery_lab_sim.Cell.{EcmCell}

pub record Channel (R : Type 0) : Type 0 where
  pub idx : ℕ
  pub cell : EcmCell R
  pub mode : ChannelMode
  pub setpoint : R
  pub safety_v_max_mv : ℕ
  pub safety_t_max_dc : ℕ
  pub last_kick_wall_s : R
  pub latched_error : ErrorCode
  pub cycle_index : ℕ
  pub cv_kp : R
  pub cv_current_limit_a : R

module _ {R : Type 0} ⦃fl : Float R⦄ where
  -- `Channel(idx=idx, cell=cell, safety_v_max_mv=v_max)`, made at the time `now`.
  unfoldable pub new_channel : R → ℕ → EcmCell R → ℕ → Channel R
  new_channel now idx cell v_max = record {
    idx = idx;
    cell = cell;
    mode = idle;
    setpoint = fl.lit 0 0;
    safety_v_max_mv = v_max;
    safety_t_max_dc = 600;
    last_kick_wall_s = now;
    latched_error = ErrorCode.none;
    cycle_index = 0;
    cv_kp = fl.lit 9 0;
    cv_current_limit_a = fl.lit 6 0;
  }

  unfoldable pub kick_watchdog : R → Channel R → Channel R
  kick_watchdog now ch = record ch { last_kick_wall_s = now }

  -- The `changed` test of `apply_command`.
  unfoldable pub command_changes : ChannelMode → R → ℕ → ℕ → Channel R → Bool
  command_changes mode setpoint v_max_mv t_max_dc ch =
      not (mode_beq ch.mode mode)
      || fl.lt (fl.lit 1 9) (fl.abs (fl.sub ch.setpoint setpoint))
      || not (ch.safety_v_max_mv == v_max_mv)
      || not (ch.safety_t_max_dc == t_max_dc)

  unfoldable pub apply_command : R → ChannelMode → R → ℕ → ℕ → Channel R → Channel R × Bool
  unfolding kick_watchdog command_changes is_error
  apply_command now mode setpoint v_max_mv t_max_dc ch =
      if is_error ch.latched_error && not (mode_beq mode idle)
      then (ch, false)
      else if not (command_changes mode setpoint v_max_mv t_max_dc ch)
      then (ch, false)
      else (
        kick_watchdog now (record ch {
          mode = mode;
          setpoint = setpoint;
          safety_v_max_mv = v_max_mv;
          safety_t_max_dc = t_max_dc;
        }),
        true,
      )

  unfoldable pub set_cycle_index : ℕ → Channel R → Channel R
  set_cycle_index idx ch = record ch { cycle_index = idx }

  unfoldable pub reset : Channel R → Channel R
  reset ch = record ch { latched_error = ErrorCode.none; mode = idle; setpoint = fl.lit 0 0 }

  unfoldable pub halt : ErrorCode → Channel R → Channel R
  unfolding is_error
  halt error ch = record ch {
    latched_error = if is_error ch.latched_error then ch.latched_error else error;
    mode = idle;
    setpoint = fl.lit 0 0;
  }

  unfoldable pub read_state : Channel R → CellState R
  unfolding Cell.read_state
  read_state ch = Cell.read_state ch.cell

  -- `max(-limit, min(limit, i))`
  unfoldable pub limit_current : Channel R → R → R
  unfolding fmin fmax
  limit_current ch i = fmax (fl.neg ch.cv_current_limit_a) (fmin ch.cv_current_limit_a i)

  -- The control law of each mode.
  unfoldable pub mode_current : ChannelMode → CellState R → Channel R → R
  unfolding limit_current fmax
  mode_current idle state ch = fl.lit 0 0
  mode_current rest state ch = fl.lit 0 0
  mode_current cc state ch = ch.setpoint
  mode_current cv state ch = limit_current ch (fl.mul ch.cv_kp (fl.sub state.voltage_v ch.setpoint))
  mode_current cp state ch =
      limit_current ch (fl.div ch.setpoint (fmax state.voltage_v (fl.lit 1 0)))

  unfoldable pub desired_current_a : CellState R → Channel R → R
  unfolding mode_current is_error
  desired_current_a state ch =
      if is_error ch.latched_error then fl.lit 0 0 else mode_current ch.mode state ch

  unfoldable pub watchdog_expired : R → R → Channel R → Bool
  watchdog_expired now threshold_s ch =
      if mode_beq ch.mode idle then false else fl.lt threshold_s (fl.sub now ch.last_kick_wall_s)
