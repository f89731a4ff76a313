-- ===== src/Examples/CyclerRuns.antt =====
-- The theorems on the cycler and the cell at concrete inputs.
use battery_lab_sim.Prelude.{arith, ◌≡◌, refl, inl, inr, true, false, List, [], ◌∷◌, All}
use battery_lab_sim.Prelude.Int.{ℤ, ◌-ℤ◌, ◌*ℤ◌, ◌+ℤ◌}
use battery_lab_sim.Prelude.Float.{fixed_point}
use battery_lab_sim.Models.{is_error, overtemp, idle, cc}
use battery_lab_sim.Chemistry.{nmc_params}
use battery_lab_sim.Cell.{new_cell, step}
use battery_lab_sim.Cell.Physics.{IsUnit, step-IsUnit_soc}
use battery_lab_sim.Cycler.Block.{function_block}
use battery_lab_sim.Cycler.Channel.{Channel, watchdog_expired, read_state}
use battery_lab_sim.Cycler.Channel.Laws.{IsSafe}
use battery_lab_sim.Cycler.Safety.{
  over_voltage, over_temperature, expired, safety_tick, chassis_tick,
}
use battery_lab_sim.Cycler.Safety.Halts.{safety_tick-within, chassis_tick-expired}
use battery_lab_sim.Cycler.Events.{Event, safety, physics, command, kicked, run}
use battery_lab_sim.Cycler.Events.Safe.{run-IsSafe, run-latched, silence-halts}
use battery_lab_sim.Cycler.Telemetry.{
  Publisher, Delivered, acknowledged, undelivered, Sampled, state_key, first_states, publish_turns,
}
use battery_lab_sim.Cycler.Telemetry.Retained.{IsRetained, publish_turns-IsRetained}
use battery_lab_sim.Examples.Samples.{whole, charging, halted, chassis}

abbrev lonely : List (Event ℤ)
lonely = physics (whole 1) (whole 25) ∷ safety (whole 1) ∷ physics (whole 1) (whole 25) ∷ []

abbrev resting : Channel ℤ
resting = record charging { mode = idle }

abbrev busy : List (Event ℤ)
busy = kicked (whole 1) ∷ command (whole 2) cc (whole 1) 4300 600 ∷ safety (whole 3) ∷ []

silence-halts_example :
    (safety_tick (whole 30) (whole 40) (run (whole 30) lonely charging)).mode ≡ idle
unfolding is_error ◌-ℤ◌
silence-halts_example =
    silence-halts (whole 30) lonely charging (whole 40) (inl refl) (refl, (refl, (refl, tt))) refl

run-IsSafe_example : IsSafe (run (whole 30) busy charging)
unfolding is_error
run-IsSafe_example = run-IsSafe (whole 30) busy charging (inl refl)

run-latched_example : (run (whole 30) busy halted).latched_error ≡ overtemp
unfolding is_error
run-latched_example = run-latched (whole 30) busy halted (refl, (refl, (refl, tt))) refl

-- The same channel, idle: a turn of the safety loop finds nothing wrong with it.
safety_tick-within_example :
    (over_voltage resting ≡ false)
    × (over_temperature resting ≡ false)
    × (watchdog_expired (whole 40) (whole 30) resting ≡ false)
    × (is_error (read_state resting).latched_error ≡ false)
    × (safety_tick (whole 30) (whole 40) resting ≡ resting)
unfolding is_error safety_tick ◌*ℤ◌ new_cell ◌-ℤ◌ ◌+ℤ◌ nmc_params
safety_tick-within_example = safety_tick-within (whole 30) (whole 40) resting refl

chassis_tick-expired_example :
    All
      (λ ch. ch.mode ≡ idle)
      (chassis_tick (whole 30) (whole 40) chassis.channels chassis.kick_state).0
    × ((chassis_tick (whole 30) (whole 40) chassis.channels chassis.kick_state).1.tripped ≡ true)
unfolding is_error expired ◌-ℤ◌
chassis_tick-expired_example =
    chassis_tick-expired (whole 30) (whole 40) chassis.channels chassis.kick_state
      (inl refl, (inr refl, tt)) refl

step-IsUnit_soc_example : IsUnit (step (whole 3) (whole 1) (whole 25) (new_cell nmc_params)).soc
unfolding new_cell
step-IsUnit_soc_example =
    step-IsUnit_soc (whole 3) (whole 1) (whole 25) (new_cell nmc_params) (refl, refl)

abbrev publisher : Publisher ℤ
publisher = record {
  last_state = first_states (charging ∷ []);
  sent = [];
  retained = (0, record { t = whole 0; state = state_key halted }) ∷ [];
}

abbrev sampled : Channel ℤ → Delivered → Sampled ℤ
sampled ch answer = record { before = ch; after = ch; telemetry_ok = true; state_publish = answer }

-- The channel rests; the first publish of that fails, and the second is acknowledged.
publish_turns-IsRetained_example : IsRetained publisher (sampled resting acknowledged) (
    publish_turns
      (λ x k. x)
      ((whole 1, sampled resting undelivered ∷ [])
        ∷ (whole 2, sampled resting acknowledged ∷ [])
        ∷ [])
      publisher)
publish_turns-IsRetained_example =
    publish_turns-IsRetained (λ x k. x) ((whole 1, sampled resting undelivered ∷ []) ∷ []) (whole 2)
      [] [] (sampled resting acknowledged) publisher (((λ e. ground arith), tt), tt) tt (refl, refl)
      tt
