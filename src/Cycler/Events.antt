-- ===== src/Cycler/Events.antt =====
-- Everything that happens to one channel, as events in the order in which the event loop runs them:
-- the Modbus handler's writes, the turns of the safety and cell loops, the chassis watchdog.
pub mod Safe
use battery_lab_sim.Prelude.{ℕ, Bool, true, false, List, [], ◌∷◌}
use battery_lab_sim.Prelude.Float.{Float}
use battery_lab_sim.Models.{ChannelMode}
use battery_lab_sim.Chemistry.{ChemistryParams}
use battery_lab_sim.Cycler.Channel.{Channel, apply_command, kick_watchdog, set_cycle_index}
use battery_lab_sim.Cycler.Safety.{safety_tick, chassis_halt, cell_tick}
use battery_lab_sim.Cycler.Swap.{swap_cell}

pub data Event (R : Type 0) : Type 0 where
  command : (now : R) (mode : ChannelMode) (setpoint : R) (v_max_mv t_max_dc : ℕ) → Event R
  kicked : (now : R) → Event R
  indexed : (cycle : ℕ) → Event R
  swapped : ChemistryParams R → Event R
  safety : (now : R) → Event R
  chassis_expired : Event R
  physics : (dt ambient : R) → Event R

-- An event that the cycler makes by itself, with no orchestrator.
abbrev pub is_autonomous : {R : Type 0} → Event R → Bool
is_autonomous (safety now) = true
is_autonomous chassis_expired = true
is_autonomous (physics dt ambient) = true
is_autonomous _ = false

abbrev pub is_swap : {R : Type 0} → Event R → Bool
is_swap (swapped chem) = true
is_swap _ = false

module _ {R : Type 0} ⦃fl : Float R⦄ (threshold_s : R) where
  unfoldable pub handle : Event R → Channel R → Channel R
  handle (command now mode setpoint v t) ch = (apply_command now mode setpoint v t ch).0
  handle (kicked now) ch = kick_watchdog now ch
  handle (indexed cycle) ch = set_cycle_index cycle ch
  handle (swapped chem) ch = swap_cell chem ch
  handle (safety now) ch = safety_tick threshold_s now ch
  handle chassis_expired ch = chassis_halt ch
  handle (physics dt ambient) ch = cell_tick dt ambient ch

  unfoldable pub run : List (Event R) → Channel R → Channel R
  run [] ch = ch
  run (e ∷ es) ch = run es (handle e ch)
