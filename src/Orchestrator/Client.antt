-- ===== src/Orchestrator/Client.antt =====
-- services/orchestrator/src/orchestrator/cycler_client.py. A method that writes is the list of its
-- register writes, in order; one that reads decodes the registers of the answer. That the transport
-- can fail is modelled by the callers.
pub mod Between
pub mod Delivery
use battery_lab_sim.Prelude.{ℕ, ◌+◌, ◌*◌, Option, none, some, List, [], ◌∷◌, if◌then◌else◌}
use battery_lab_sim.Prelude.Int.{pos, clamp_ℕ}
use battery_lab_sim.Prelude.Float.{Float}
use battery_lab_sim.Models.{ErrorCode, error_of_value, ChannelMode, idle}
use battery_lab_sim.Modbus.{
  channel_block_size, ChannelReg, channel_offset, channel_reg, ChassisReg, chassis_address,
  mode_value, mode_of_value, encode_f32, decode_f32, from_int16_signed,
}

pub record ChannelSnapshot (R : Type 0) : Type 0 where
  pub mode : ChannelMode
  pub setpoint : R
  pub voltage_v : R
  pub current_a : R
  pub temperature_c : R
  pub soc : R
  pub last_error : ErrorCode
  pub cycle_count : ℕ

-- `write_registers(address, values)`
pub record Write : Type 0 where
  pub address : ℕ
  pub values : List ℕ

abbrev pub write_register : ℕ → ℕ → Write
write_register address value = record { address = address; values = value ∷ [] }

abbrev pub default_v_max_mv : ℕ
default_v_max_mv = 4500

abbrev pub default_t_max_dc : ℕ
default_t_max_dc = 600

unfoldable pub decode_mode : ℕ → ChannelMode
unfolding mode_of_value
decode_mode v = elim (mode_of_value v) [ none ↦ idle | some m ↦ m ]

unfoldable pub decode_error : ℕ → ErrorCode
unfolding error_of_value
decode_error v = elim (error_of_value v) [ none ↦ ErrorCode.none | some e ↦ e ]

module _ {R : Type 0} ⦃fl : Float R⦄ where
  -- `read_channel`, from the registers of the answer by their offset in the channel's block.
  unfoldable pub decode_channel : (ℕ → ℕ) → ChannelSnapshot R
  unfolding decode_mode decode_error channel_offset
  decode_channel regs = record {
    mode = decode_mode (regs (channel_offset ChannelReg.mode));
    setpoint =
        decode_f32 (regs (channel_offset ChannelReg.setpoint_hi))
          (regs (channel_offset ChannelReg.setpoint_lo));
    voltage_v =
        fl.div (fl.of_int (pos (regs (channel_offset ChannelReg.voltage_mv)))) (fl.lit 1000 0);
    current_a =
        fl.div (fl.of_int (from_int16_signed (regs (channel_offset ChannelReg.current_ma))))
          (fl.lit 1000 0);
    temperature_c =
        fl.div (fl.of_int (pos (regs (channel_offset ChannelReg.temp_dc)))) (fl.lit 10 0);
    soc = fl.div (fl.of_int (pos (regs (channel_offset ChannelReg.soc_pcth)))) (fl.lit 10000 0);
    last_error = decode_error (regs (channel_offset ChannelReg.last_error));
    cycle_count = regs (channel_offset ChannelReg.cycle_count);
  }

  -- Setpoint and limits before the mode.
  unfoldable pub send_command : ℕ → ChannelMode → R → ℕ → ℕ → List Write
  send_command idx mode setpoint v_max_mv t_max_dc =
      let words = encode_f32 setpoint in
      record { address = channel_reg idx ChannelReg.setpoint_hi; values = words.0 ∷ words.1 ∷ [] }
      ∷ write_register (channel_reg idx ChannelReg.safety_v_max_mv) v_max_mv
      ∷ write_register (channel_reg idx ChannelReg.safety_t_max_dc) t_max_dc
      ∷ write_register (channel_reg idx ChannelReg.mode) (mode_value mode)
      ∷ []

unfoldable pub kick_channel : ℕ → Write
kick_channel idx = write_register (channel_reg idx ChannelReg.watchdog_kick) 1

-- The cycle index is clamped to the 16 bits of its register.
unfoldable pub set_cycle_index : ℕ → ℕ → Write
set_cycle_index idx cycle_index =
    write_register (channel_reg idx ChannelReg.cycle_count) (clamp_ℕ 65535 (pos cycle_index))

unfoldable pub kick_chassis : Write
unfolding chassis_address
kick_chassis = write_register (chassis_address ChassisReg.chassis_watchdog_kick) 1

unfoldable pub write_chassis_chemistry : ℕ → Write
unfolding chassis_address
write_chassis_chemistry id = write_register (chassis_address ChassisReg.chemistry) id
