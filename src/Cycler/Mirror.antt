-- ===== src/Cycler/Mirror.antt =====
-- services/cycler/src/cycler/modbus_server.py, `mirror_loop`: one turn of the mirror.
use battery_lab_sim.Prelude.{ℕ, ◌+◌, Option, none, some, List, [], ◌∷◌, if◌then◌else◌}
use battery_lab_sim.Prelude.Int.{pos, clamp_ℕ}
use battery_lab_sim.Prelude.Float.{Float}
use battery_lab_sim.Models.{ErrorCode, error_value, watchdog_timeout}
use battery_lab_sim.Modbus.{
  ChannelReg, channel_reg, ChassisReg, chassis_address, mode_value, encode_f32, to_int16_signed,
}
use battery_lab_sim.Cycler.Channel.{Channel, read_state}
use battery_lab_sim.Cycler.Block.{SparseBlock, put_values}
use battery_lab_sim.Cycler.Registers.{Chassis, put_chemistry}

abbrev is_timeout : ErrorCode → ℕ
is_timeout watchdog_timeout = 1
is_timeout _ = 0

module _ {R : Type 0} ⦃fl : Float R⦄ where
  -- `_u16_clamp`
  unfoldable pub u16_clamp : R → ℕ
  u16_clamp v = clamp_ℕ 65535 (fl.to_int v)

module _ {R B : Type 0} ⦃fl : Float R⦄ ⦃sb : SparseBlock B⦄ where
  -- The registers that one turn of `mirror_loop` stores for channel i.
  unfoldable pub mirror_channel : ℕ → Channel R → B → B
  unfolding put_values read_state u16_clamp
  mirror_channel i ch b =
      let s = read_state ch in
      let words = encode_f32 ch.setpoint in
      let b1 = sb.put b (channel_reg i ChannelReg.mode) (mode_value ch.mode) in
      let b2 = put_values b1 (channel_reg i ChannelReg.setpoint_hi) (words.0 ∷ words.1 ∷ []) in
      let b3 =
        sb.put b2 (channel_reg i ChannelReg.voltage_mv)
          (u16_clamp (fl.mul s.voltage_v (fl.lit 1000 0))) in
      let b4 =
        sb.put b3 (channel_reg i ChannelReg.current_ma)
          (to_int16_signed (fl.to_int (fl.mul s.current_a (fl.lit 1000 0)))) in
      let b5 =
        sb.put b4 (channel_reg i ChannelReg.temp_dc)
          (u16_clamp (fl.mul s.temperature_c (fl.lit 10 0))) in
      let b6 =
        sb.put b5 (channel_reg i ChannelReg.soc_pcth) (u16_clamp (fl.mul s.soc (fl.lit 10000 0))) in
      let b7 =
        sb.put b6 (channel_reg i ChannelReg.soh_pcth) (u16_clamp (fl.mul s.soh (fl.lit 10000 0))) in
      let b8 = sb.put b7 (channel_reg i ChannelReg.watchdog_status) (is_timeout ch.latched_error) in
      let b9 = sb.put b8 (channel_reg i ChannelReg.last_error) (error_value ch.latched_error) in
      sb.put b9 (channel_reg i ChannelReg.cycle_count) (clamp_ℕ 65535 (pos ch.cycle_index))

  unfoldable pub mirror_channels : ℕ → List (Channel R) → B → B
  mirror_channels i [] b = b
  mirror_channels i (ch ∷ rest) b = mirror_channels (i + 1) rest (mirror_channel i ch b)

  -- One turn of `mirror_loop`; `none` is the `ValueError` of the chemistry's name.
  unfoldable pub mirror_tick : Chassis R B → Option (Chassis R B)
  mirror_tick s =
      let b = mirror_channels 0 s.channels s.block in
      let status = if s.kick_state.tripped then 1 else 0 in
      elim (put_chemistry s.channels
        (sb.put b (chassis_address ChassisReg.chassis_watchdog_status) status)) [
          | none ↦ none
          | some b' ↦ some (record s { block = b' })
        ]
