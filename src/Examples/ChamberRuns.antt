-- ===== src/Examples/ChamberRuns.antt =====
-- The theorems on the chamber at concrete inputs.
use battery_lab_sim.Prelude.{ℕ, ◌≡◌, [], ◌∷◌}
use battery_lab_sim.Prelude.Int.{ℤ}
use battery_lab_sim.Prelude.Float.{fixed_point}
use battery_lab_sim.Modbus.{chamber_address}
use battery_lab_sim.Cycler.Block.{function_block}
use battery_lab_sim.Chamber.{Chamber, set_values}
use battery_lab_sim.Chamber.Served.{model_after, set_values_lem}
use battery_lab_sim.Examples.Samples.{whole}

abbrev chamber : Chamber ℤ (ℕ → ℕ)
chamber = record {
  model = record { measured_c = whole 25; setpoint_c = whole 25; tau_s = whole 600 };
  block = λ address. 0;
  last_kick_sim_s = whole 0;
}

set_values_lem_example :
    let c = set_values (whole 7) 0 (450 ∷ []) chamber in
    (c.model ≡ model_after 0 (450 ∷ []) chamber.model) × (c.last_kick_sim_s ≡ whole 0)
unfolding chamber_address
set_values_lem_example = set_values_lem (whole 7) 0 (450 ∷ []) chamber
