-- ===== src/Models.antt =====
-- libs/batterylab/src/batterylab/models.py: the data that the services share.
use battery_lab_sim.Prelude.{
  ℕ, ◌≡◌, ◌↔◌, Bool, true, false, Option, some, arith, ◌==◌, Eq, if◌then◌else◌,
}

pub data ErrorCode : Type 0 where
  none overvoltage overtemp watchdog_timeout internal_short thermal_runaway dead : ErrorCode

-- The `IntEnum` value, and `ErrorCode(n)` with its `ValueError` as `none`.
unfoldable pub error_value : ErrorCode → ℕ
error_value ErrorCode.none = 0
error_value overvoltage = 1
error_value overtemp = 2
error_value watchdog_timeout = 3
error_value internal_short = 4
error_value thermal_runaway = 5
error_value dead = 6

unfoldable pub error_of_value : ℕ → Option ErrorCode
error_of_value n =
    if n == 0
    then some ErrorCode.none
    else if n == 1
    then some overvoltage
    else if n == 2
    then some overtemp
    else if n == 3
    then some watchdog_timeout
    else if n == 4
    then some internal_short
    else if n == 5
    then some thermal_runaway
    else if n == 6
    then some dead
    else Option.none

-- `error != ErrorCode.NONE`
unfoldable pub is_error : ErrorCode → Bool
is_error ErrorCode.none = false
is_error _ = true

pub data ChannelMode : Type 0 where
  idle cc cv cp rest : ChannelMode

abbrev pub mode_rank : ChannelMode → ℕ
mode_rank idle = 0
mode_rank cc = 1
mode_rank cv = 2
mode_rank cp = 3
mode_rank rest = 4

abbrev pub mode_beq : ChannelMode → ChannelMode → Bool
mode_beq m n = mode_rank m == mode_rank n

pub mode_beq_iff : (m n : ChannelMode) → (mode_beq m n ≡ true) ↔ (m ≡ n)
mode_beq_iff m n = ground arith

instance abbrev pub ChannelMode_eq : Eq ChannelMode
ChannelMode_eq = record { beq = mode_beq; beq_iff = mode_beq_iff }

-- A frozen snapshot of a cell's terminals.
pub record CellState (R : Type 0) : Type 0 where
  pub voltage_v : R
  pub current_a : R
  pub temperature_c : R
  pub soc : R
  pub soh : R
  pub cycle_count : ℕ
  pub latched_error : ErrorCode
