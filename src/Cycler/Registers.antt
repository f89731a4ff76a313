-- ===== src/Cycler/Registers.antt =====
-- services/cycler/src/cycler/modbus_server.py: the chassis' register block and its mirror. pymodbus'
-- sparse block is the interface `SparseBlock`; a write call runs at one reading `now` of the clock.
pub mod Writes
use battery_lab_sim.Prelude.{
  ℕ, ◌+◌, ◌-◌, ◌/◌, Bool, ◌||◌, Option, none, some, List, [], ◌∷◌, ◌==◌, leb, if◌then◌else◌, length,
  get_elem?, set,
}
use battery_lab_sim.Prelude.Float.{Float}
use battery_lab_sim.Models.{ChannelMode, idle}
use battery_lab_sim.Modbus.{
  channel_block_size, chassis_base, firmware_version, protocol_version, ChannelReg, channel_base,
  channel_reg, ChassisReg, chassis_address, chemistry_id_for_name, mode_of_value, decode_f32,
}
use battery_lab_sim.Cycler.Channel.{Channel, kick_watchdog, set_cycle_index, apply_command}
use battery_lab_sim.Cycler.Safety.{ChassisKickState, kick}
use battery_lab_sim.Cycler.Block.{SparseBlock, put_values}
use battery_lab_sim.Cycler.Swap.{set_chemistry}

-- The objects that a `ChassisDataBlock` holds, and the block itself.
pub record Chassis (R B : Type 0) : Type 0 where
  pub channels : List (Channel R)
  pub kick_state : ChassisKickState R
  pub block : B

abbrev is_command_register : ℕ → Bool
is_command_register offset =
    offset == 0 || offset == 1 || offset == 2 || offset == 20 || offset == 21

-- `MODE_TO_STR[ModbusMode(mode_v)]`, and "idle" for what is no mode.
unfoldable pub mode_or_idle : ℕ → ChannelMode
mode_or_idle v = elim (mode_of_value v) [ none ↦ idle | some m ↦ m ]

module _ {R B : Type 0} ⦃fl : Float R⦄ ⦃sb : SparseBlock B⦄ where
  -- The CHEMISTRY register follows the first channel; `none` is the `ValueError` of its name.
  unfoldable pub put_chemistry : List (Channel R) → B → Option B
  put_chemistry [] b = some b
  put_chemistry (ch ∷ rest) b = elim (chemistry_id_for_name ch.cell.chem.name) [
    | none ↦ none
    | some id ↦ some (sb.put b (chassis_address ChassisReg.chemistry) id)
  ]

  unfoldable pub put_safety : ℕ → List (Channel R) → B → B
  put_safety i [] b = b
  put_safety i (ch ∷ rest) b = put_safety (i + 1) rest (
      sb.put (sb.put b (channel_reg i ChannelReg.safety_v_max_mv) ch.safety_v_max_mv)
        (channel_reg i ChannelReg.safety_t_max_dc) ch.safety_t_max_dc)

  -- `ChassisDataBlock(channels, kick_state, chassis_id)`, on a block `zeros` of zero registers.
  unfoldable pub new_chassis : B → List (Channel R) → ChassisKickState R → ℕ → Option (Chassis R B)
  unfolding put_chemistry put_safety
  new_chassis zeros channels k id =
      let b1 = sb.put zeros (chassis_address ChassisReg.chassis_id) id in
      let b2 = sb.put b1 (chassis_address ChassisReg.firmware) firmware_version in
      let b3 = sb.put b2 (chassis_address ChassisReg.total_channels) (length channels) in
      let b4 = sb.put b3 (chassis_address ChassisReg.protocol) protocol_version in
      elim (put_chemistry channels b4) [
        | none ↦ none
        | some b5 ↦
            some (record { channels = channels; kick_state = k; block = put_safety 0 channels b5 })
      ]

  -- The command that the block holds for channel i.
  unfoldable pub apply_registers : R → B → ℕ → Channel R → Channel R
  unfolding mode_or_idle
  apply_registers now b i ch =
      (apply_command now (mode_or_idle (sb.get b (channel_reg i ChannelReg.mode)))
        (decode_f32 (sb.get b (channel_reg i ChannelReg.setpoint_hi))
          (sb.get b (channel_reg i ChannelReg.setpoint_lo)))
        (sb.get b (channel_reg i ChannelReg.safety_v_max_mv))
        (sb.get b (channel_reg i ChannelReg.safety_t_max_dc)) ch).0

  -- The side effect of a write at `offset` in the block of channel i.
  unfoldable pub channel_write : R → B → ℕ → ℕ → Channel R → Channel R
  channel_write now b i offset ch =
      if offset == 30
      then kick_watchdog now ch
      else if offset == 41
      then set_cycle_index (sb.get b (channel_reg i ChannelReg.cycle_count)) ch
      else if is_command_register offset
      then apply_registers now b i ch
      else ch

  unfoldable pub dispatch_chassis : R → ℕ → Chassis R B → Chassis R B
  unfolding chassis_address
  dispatch_chassis now addr s =
      if addr == chassis_address ChassisReg.chassis_watchdog_kick
      then record s { kick_state = kick now s.kick_state }
      else if addr == chassis_address ChassisReg.chemistry
      then record s { channels = set_chemistry (sb.get s.block addr) s.channels }
      else s

  unfoldable pub dispatch_channel : R → ℕ → Chassis R B → Chassis R B
  unfolding channel_base
  dispatch_channel now addr s =
      let i = addr / channel_block_size in
      elim (get_elem? s.channels i) [
        | none ↦ s
        | some ch ↦ record s {
          channels = set s.channels i (channel_write now s.block i (addr - channel_base i) ch);
        }
      ]

  -- `_dispatch`
  unfoldable pub dispatch : R → ℕ → Chassis R B → Chassis R B
  dispatch now addr s =
      if leb chassis_base addr then dispatch_chassis now addr s else dispatch_channel now addr s

  -- `for offset in range(len(values)): self._dispatch(address + offset)`
  unfoldable pub dispatch_range : R → ℕ → List ℕ → Chassis R B → Chassis R B
  dispatch_range now addr [] s = s
  dispatch_range now addr (v ∷ vs) s = dispatch_range now (addr + 1) vs (dispatch now addr s)

  -- `ChassisDataBlock.setValues`
  unfoldable pub set_values : R → ℕ → List ℕ → Chassis R B → Chassis R B
  unfolding put_values dispatch_range
  set_values now addr values s =
      dispatch_range now addr values (record s { block = put_values s.block addr values })
