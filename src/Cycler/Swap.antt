-- ===== src/Cycler/Swap.antt =====
-- services/cycler/src/cycler/modbus_server.py, `_set_chemistry`: the rebuild of a chassis' cells.
use battery_lab_sim.Prelude.{ℕ, none, some, List, [], ◌∷◌, map, if◌then◌else◌, String}
use battery_lab_sim.Prelude.Float.{Float}
use battery_lab_sim.Models.{ErrorCode, idle}
use battery_lab_sim.Modbus.{chemistry_name_for_id}
use battery_lab_sim.Chemistry.{ChemistryParams, get_chemistry}
use battery_lab_sim.Cell.{new_cell}
use battery_lab_sim.Cycler.Channel.{Channel}
use text.Mathlib.Text.{◌==◌ as str_eq}

module _ {R : Type 0} ⦃fl : Float R⦄ where
  -- What `_set_chemistry` does to one channel.
  unfoldable pub swap_cell : ChemistryParams R → Channel R → Channel R
  swap_cell chem ch = record ch {
    cell = new_cell chem;
    mode = idle;
    setpoint = fl.lit 0 0;
    latched_error = ErrorCode.none;
    safety_v_max_mv = chem.v_max_mv;
    cycle_index = 0;
  }

  -- The rebuild, once the id has a name; `none` of `get_chemistry` is its `ValueError`.
  unfoldable pub rebuild : String → List (Channel R) → List (Channel R)
  unfolding swap_cell
  rebuild name [] = []
  rebuild name (ch ∷ rest) =
      if str_eq ch.cell.chem.name name then ch ∷ rest else elim (get_chemistry name) [
        | none ↦ ch ∷ rest
        | some chem ↦ map (swap_cell chem) (ch ∷ rest)
      ]

  -- `_set_chemistry`: unknown ids are ignored.
  unfoldable pub set_chemistry : ℕ → List (Channel R) → List (Channel R)
  unfolding rebuild
  set_chemistry id channels = elim (chemistry_name_for_id id) [
    | none ↦ channels
    | some name ↦ rebuild name channels
  ]
