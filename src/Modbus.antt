-- ===== src/Modbus.antt =====
-- libs/batterylab/src/batterylab/modbus_maps.py: the register map, the wire enumerations and the
-- word encodings.
pub mod RoundTrip
use battery_lab_sim.Prelude.{
  ℕ, suc, ◌+◌, ◌-◌, ◌*◌, ◌/◌, ◌%◌, String, Bool, Option, none, some, Eq, ◌==◌, leb, ltb,
  if◌then◌else◌,
}
use battery_lab_sim.Prelude.Int.{ℤ, pos, negsuc, sub_ℕ}
use battery_lab_sim.Prelude.Float.{Float}
use battery_lab_sim.Models.{ChannelMode, idle, cc, cv, cp, rest}
use text.Mathlib.Text.{◌==◌ as str_eq}

abbrev pub protocol_version : ℕ
protocol_version = 3

abbrev pub chamber_protocol_version : ℕ
chamber_protocol_version = 1

abbrev pub firmware_version : ℕ
firmware_version = 1

abbrev pub channel_block_size : ℕ
channel_block_size = 50

abbrev pub chassis_base : ℕ
chassis_base = 10000

pub data ChannelReg : Type 0 where
  mode setpoint_hi setpoint_lo voltage_mv current_ma temp_dc soc_pcth soh_pcth : ChannelReg
  safety_v_max_mv safety_t_max_dc watchdog_kick watchdog_status last_error cycle_count : ChannelReg

-- `int(reg)`
unfoldable pub channel_offset : ChannelReg → ℕ
channel_offset mode = 0
channel_offset setpoint_hi = 1
channel_offset setpoint_lo = 2
channel_offset voltage_mv = 10
channel_offset current_ma = 11
channel_offset temp_dc = 12
channel_offset soc_pcth = 13
channel_offset soh_pcth = 14
channel_offset safety_v_max_mv = 20
channel_offset safety_t_max_dc = 21
channel_offset watchdog_kick = 30
channel_offset watchdog_status = 31
channel_offset last_error = 40
channel_offset cycle_count = 41

pub data ChassisReg : Type 0 where
  chassis_id firmware total_channels chassis_watchdog_status chassis_watchdog_kick : ChassisReg
  protocol chemistry : ChassisReg

unfoldable pub chassis_address : ChassisReg → ℕ
chassis_address chassis_id = 10000
chassis_address firmware = 10001
chassis_address total_channels = 10002
chassis_address chassis_watchdog_status = 10003
chassis_address chassis_watchdog_kick = 10004
chassis_address protocol = 10005
chassis_address chemistry = 10010

-- The registers of a thermal chamber.
pub data ChamberReg : Type 0 where
  setpoint_dc measured_dc chamber_watchdog_kick chamber_watchdog_status : ChamberReg
  chamber_protocol chamber_firmware : ChamberReg

unfoldable pub chamber_address : ChamberReg → ℕ
chamber_address setpoint_dc = 0
chamber_address measured_dc = 1
chamber_address chamber_watchdog_kick = 10
chamber_address chamber_watchdog_status = 11
chamber_address chamber_protocol = 10000
chamber_address chamber_firmware = 10001

pub data ChemistryId : Type 0 where
  nmc lco nmc_sic lco_sic : ChemistryId

unfoldable pub chemistry_value : ChemistryId → ℕ
chemistry_value nmc = 1
chemistry_value lco = 2
chemistry_value nmc_sic = 3
chemistry_value lco_sic = 4

-- `ChemistryId(value)`, with its `ValueError` as `none`.
unfoldable pub chemistry_of_value : ℕ → Option ChemistryId
chemistry_of_value n =
    if n == 1
    then some nmc
    else if n == 2
    then some lco
    else if n == 3
    then some nmc_sic
    else if n == 4
    then some lco_sic
    else none

-- `CHEMISTRY_ID_TO_NAME`
unfoldable pub chemistry_name : ChemistryId → String
chemistry_name nmc = "NMC"
chemistry_name lco = "LCO"
chemistry_name nmc_sic = "NMC+SiC"
chemistry_name lco_sic = "LCO+SiC"

-- `CHEMISTRY_NAME_TO_ID`, with its `KeyError` as `none`.
unfoldable pub chemistry_of_name : String → Option ChemistryId
chemistry_of_name s =
    if str_eq s "NMC"
    then some nmc
    else if str_eq s "LCO"
    then some lco
    else if str_eq s "NMC+SiC"
    then some nmc_sic
    else if str_eq s "LCO+SiC"
    then some lco_sic
    else none

-- The two look-ups raise `ValueError`, here `none`, on what they do not know.
unfoldable pub chemistry_name_for_id : ℕ → Option String
unfolding chemistry_of_value chemistry_name
chemistry_name_for_id value = elim (chemistry_of_value value) [
  | none ↦ none
  | some c ↦ some (chemistry_name c)
]

unfoldable pub chemistry_id_for_name : String → Option ℕ
unfolding chemistry_of_name chemistry_value
chemistry_id_for_name name = elim (chemistry_of_name name) [
  | none ↦ none
  | some c ↦ some (chemistry_value c)
]

-- `STR_TO_MODE`, down to the `ModbusMode` integer.
unfoldable pub mode_value : ChannelMode → ℕ
mode_value idle = 0
mode_value cc = 1
mode_value cv = 2
mode_value cp = 3
mode_value rest = 4

-- `MODE_TO_STR[ModbusMode(v)]`, with its `ValueError` as `none`.
unfoldable pub mode_of_value : ℕ → Option ChannelMode
mode_of_value n =
    if n == 0
    then some idle
    else if n == 1
    then some cc
    else if n == 2
    then some cv
    else if n == 3
    then some cp
    else if n == 4
    then some rest
    else none

unfoldable pub channel_base : ℕ → ℕ
channel_base idx = idx * channel_block_size

unfoldable pub channel_reg : ℕ → ChannelReg → ℕ
unfolding channel_base channel_offset
channel_reg idx reg = channel_base idx + channel_offset reg

module _ {R : Type 0} ⦃fl : Float R⦄ where
  -- The big-endian words (high, low) of a float32.
  unfoldable pub encode_f32 : R → ℕ × ℕ
  encode_f32 value = let raw = fl.pack_f32 value in (raw / 65536, raw % 65536)

  unfoldable pub decode_f32 : ℕ → ℕ → R
  decode_f32 hi lo = fl.unpack_f32 (hi % 65536 * 65536 + lo % 65536)

-- `v & 0xFFFF` of a Python integer, which `v % 65536` is also below zero.
unfoldable pub low_word : ℤ → ℕ
low_word (pos n) = n % 65536
low_word (negsuc n) = 65535 - n % 65536

unfoldable pub to_int16_signed : ℤ → ℕ
unfolding low_word
to_int16_signed (pos n) = low_word (pos n)
to_int16_signed (negsuc n) = low_word (sub_ℕ 65536 (suc n))

unfoldable pub from_int16_signed : ℕ → ℤ
from_int16_signed v = let w = v % 65536 in if leb 32768 w then sub_ℕ w 65536 else pos w
