-- ===== src/Cycler/Safety.antt =====
-- services/cycler/src/cycler/safety.py: the bodies of the three loops, each one turn without an
-- `await`, so each is one atomic step of the event loop. `now` is the wall clock of the turn.
pub mod Halts
use battery_lab_sim.Prelude.{Bool, true, false, not, ◌&&◌, List, map, if◌then◌else◌}
use battery_lab_sim.Prelude.Int.{ℤ, pos, ltb_ℤ}
use battery_lab_sim.Prelude.Float.{Float}
use battery_lab_sim.Models.{
  overvoltage, overtemp, watchdog_timeout, is_error, idle, mode_beq, CellState,
}
use battery_lab_sim.Cell
use battery_lab_sim.Cycler.Channel.{Channel, halt, read_state, desired_current_a, watchdog_expired}

-- `ChassisKickState`
pub record ChassisKickState (R : Type 0) : Type 0 where
  pub last_kick_wall_s : R
  pub tripped : Bool

module _ {R : Type 0} ⦃fl : Float R⦄ where
  -- `int(state.voltage_v * 1000.0)` and `int(state.temperature_c * 10.0)`
  unfoldable pub measured_mv : CellState R → ℤ
  measured_mv state = fl.to_int (fl.mul state.voltage_v (fl.lit 1000 0))

  unfoldable pub measured_dc : CellState R → ℤ
  measured_dc state = fl.to_int (fl.mul state.temperature_c (fl.lit 10 0))

  unfoldable pub over_voltage : Channel R → Bool
  unfolding measured_mv read_state
  over_voltage ch = ltb_ℤ (pos ch.safety_v_max_mv) (measured_mv (read_state ch))

  unfoldable pub over_temperature : Channel R → Bool
  unfolding measured_dc read_state
  over_temperature ch = ltb_ℤ (pos ch.safety_t_max_dc) (measured_dc (read_state ch))

  -- One turn of `safety_loop`.
  unfoldable pub safety_tick : R → R → Channel R → Channel R
  unfolding over_voltage over_temperature watchdog_expired halt is_error read_state
  safety_tick threshold_s now ch =
      if is_error ch.latched_error
      then ch
      else if over_voltage ch
      then halt overvoltage ch
      else if over_temperature ch
      then halt overtemp ch
      else if watchdog_expired now threshold_s ch
      then halt watchdog_timeout ch
      else if is_error (read_state ch).latched_error
      then halt (read_state ch).latched_error ch
      else ch

  unfoldable pub kick : R → ChassisKickState R → ChassisKickState R
  kick now k = record k { last_kick_wall_s = now }

  unfoldable pub expired : R → R → ChassisKickState R → Bool
  expired now threshold_s k = fl.lt threshold_s (fl.sub now k.last_kick_wall_s)

  -- What the chassis watchdog does to one channel when the kick has expired.
  unfoldable pub chassis_halt : Channel R → Channel R
  unfolding halt is_error
  chassis_halt ch =
      if not (mode_beq ch.mode idle) && not (is_error ch.latched_error)
      then halt watchdog_timeout ch
      else ch

  -- One turn of `chassis_watchdog`.
  unfoldable pub chassis_tick :
      R → R → List (Channel R) → ChassisKickState R → List (Channel R) × ChassisKickState R
  unfolding expired chassis_halt
  chassis_tick threshold_s now channels k =
      if expired now threshold_s k
      then (map chassis_halt channels, record k { tripped = true })
      else (channels, record k { tripped = false })

  -- One turn of `cell_loop`.
  unfoldable pub cell_tick : R → R → Channel R → Channel R
  unfolding desired_current_a halt is_error read_state
  cell_tick dt_sim ambient_c ch =
      let current = desired_current_a (read_state ch) ch in
      let driven = record ch { cell = Cell.step current dt_sim ambient_c ch.cell } in
      let relaxed = record ch { cell = Cell.step (fl.lit 0 0) dt_sim ambient_c ch.cell } in
      if is_error ch.latched_error
      then relaxed
      else if is_error (read_state driven).latched_error
      then halt (read_state driven).latched_error driven
      else driven
