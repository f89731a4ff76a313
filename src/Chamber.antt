-- ===== src/Chamber.antt =====
-- services/chamber/src/chamber: the thermal model of thermal.py, the register block of modbus_server.py
-- over the interface of pymodbus' sparse store, and the messages of main.py. `now` is a reading of the
-- simulated clock.
pub mod Served
use battery_lab_sim.Prelude.{ℕ, ◌+◌, ◌%◌, String, List, [], ◌∷◌, ◌==◌, if◌then◌else◌}
use battery_lab_sim.Prelude.Int.{pos, clamp_ℕ}
use battery_lab_sim.Prelude.Float.{Float}
use battery_lab_sim.Modbus.{
  firmware_version, chamber_protocol_version, ChamberReg, setpoint_dc, measured_dc,
  chamber_watchdog_kick, chamber_watchdog_status, chamber_protocol, chamber_firmware,
  chamber_address,
}
use battery_lab_sim.Cycler.Block.{SparseBlock, put_values}
use battery_lab_sim.Watchdog.Chamber.{Ambient}

pub record ThermalModel (R : Type 0) : Type 0 where
  pub measured_c : R
  pub setpoint_c : R
  pub tau_s : R

-- A `ChamberDataBlock`, with the model that it holds.
pub record Chamber (R B : Type 0) : Type 0 where
  pub model : ThermalModel R
  pub block : B
  pub last_kick_sim_s : R

module _ {R : Type 0} ⦃fl : Float R⦄ where
  -- `step`: forward Euler, or the setpoint itself if the time constant is not positive.
  unfoldable pub step : R → ThermalModel R → ThermalModel R
  step dt_s m =
      if fl.le m.tau_s (fl.lit 0 0) then record m { measured_c = m.setpoint_c } else record m {
        measured_c =
            fl.add m.measured_c (fl.mul (fl.div (fl.sub m.setpoint_c m.measured_c) m.tau_s) dt_s);
      }

  -- `_u16_clamp(celsius * 10.0)`
  unfoldable pub u16_deci : R → ℕ
  u16_deci celsius = clamp_ℕ 65535 (fl.to_int (fl.mul celsius (fl.lit 10 0)))

  -- One turn of `thermal_loop`, at 10 Hz.
  unfoldable pub thermal_turn : ThermalModel R → ThermalModel R
  unfolding step
  thermal_turn m = step (fl.div (fl.lit 1 0) (fl.lit 10 0)) m

  -- The payload of `ambient_publisher`, with Python's `round` to three digits.
  unfoldable pub ambient_payload : (R → R) → String → ThermalModel R → Ambient R
  ambient_payload round_3 chamber_id m = record {
    chamber_id = chamber_id;
    measured_c = round_3 m.measured_c;
    setpoint_c = round_3 m.setpoint_c;
  }

module _ {R B : Type 0} ⦃fl : Float R⦄ ⦃sb : SparseBlock B⦄ where
  -- `ChamberDataBlock(model)` on a block `zeros` of zero registers.
  unfoldable pub new_chamber : B → R → ThermalModel R → Chamber R B
  unfolding u16_deci
  new_chamber zeros now m =
      let b1 = sb.put zeros (chamber_address setpoint_dc) (u16_deci m.setpoint_c) in
      let b2 = sb.put b1 (chamber_address measured_dc) (u16_deci m.measured_c) in
      let b3 = sb.put b2 (chamber_address chamber_watchdog_kick) 0 in
      let b4 = sb.put b3 (chamber_address chamber_watchdog_status) 0 in
      let b5 = sb.put b4 (chamber_address chamber_protocol) chamber_protocol_version in
      record {
        model = m;
        block = sb.put b5 (chamber_address chamber_firmware) firmware_version;
        last_kick_sim_s = now;
      }

  unfoldable pub dispatch : R → ℕ → ℕ → Chamber R B → Chamber R B
  unfolding chamber_address
  dispatch now addr raw c =
      if addr == chamber_address setpoint_dc
      then record c {
        model = record c.model {
          setpoint_c = fl.div (fl.of_int (pos (raw % 65536))) (fl.lit 10 0);
        };
      }
      else if addr == chamber_address chamber_watchdog_kick
      then record c { last_kick_sim_s = now }
      else c

  unfoldable pub dispatch_all : R → ℕ → List ℕ → Chamber R B → Chamber R B
  unfolding dispatch
  dispatch_all now addr [] c = c
  dispatch_all now addr (raw ∷ values) c =
      dispatch_all now (addr + 1) values (dispatch now addr raw c)

  unfoldable pub set_values : R → ℕ → List ℕ → Chamber R B → Chamber R B
  unfolding dispatch_all put_values
  set_values now address values c =
      dispatch_all now address values (record c { block = put_values c.block address values })

  -- One turn of `mirror_loop`.
  unfoldable pub mirror : R → Chamber R B → Chamber R B
  unfolding u16_deci
  mirror now c =
      let tripped = fl.lt (fl.lit 30 0) (fl.sub now c.last_kick_sim_s) in
      let b = sb.put c.block (chamber_address measured_dc) (u16_deci c.model.measured_c) in
      record c {
        block = sb.put b (chamber_address chamber_watchdog_status) (if tripped then 1 else 0);
      }
