-- ===== src/Cycler/Events/Safe.antt =====
-- The safety of a channel along every order of events.
use battery_lab_sim.Prelude.{◌≡◌, inr, refl, ◌∙◌, true, false, List, [], ◌∷◌, arith, All}
use battery_lab_sim.Prelude.Float.{Float}
use battery_lab_sim.Models.{is_error, idle}
use battery_lab_sim.Cycler.Channel.{Channel, kick_watchdog, set_cycle_index}
use battery_lab_sim.Cycler.Channel.Laws.{IsSafe, apply_command-IsSafe, apply_command-latch}
use battery_lab_sim.Cycler.Safety.{safety_tick, chassis_halt, cell_tick}
use battery_lab_sim.Cycler.Safety.Halts.{
  safety_tick-IsSafe, chassis_halt-IsSafe, cell_tick-IsSafe, safety_tick-expired,
}
use battery_lab_sim.Cycler.Swap.{swap_cell}
use battery_lab_sim.Cycler.Events.{
  Event, command, kicked, indexed, swapped, safety, chassis_expired, physics, is_autonomous,
  is_swap, handle, run,
}

module _ {R : Type 0} ⦃fl : Float R⦄ (threshold_s : R) where
  pub handle-IsSafe : (e : Event R) (ch : Channel R) → IsSafe ch → IsSafe (handle threshold_s e ch)
  unfolding handle kick_watchdog set_cycle_index swap_cell
  handle-IsSafe (command now mode setpoint v t) ch h =
      apply_command-IsSafe now mode setpoint v t ch h
  handle-IsSafe (kicked now) ch h = h
  handle-IsSafe (indexed cycle) ch h = h
  handle-IsSafe (swapped chem) ch h = inr refl
  handle-IsSafe (safety now) ch h = safety_tick-IsSafe threshold_s now ch h
  handle-IsSafe chassis_expired ch h = chassis_halt-IsSafe ch h
  handle-IsSafe (physics dt ambient) ch h = cell_tick-IsSafe dt ambient ch h

  -- Every sequence of events takes a channel that is idle or has no error to one that is idle or has no
  -- error.
  pub run-IsSafe :
      (es : List (Event R)) (ch : Channel R) → IsSafe ch → IsSafe (run threshold_s es ch)
  unfolding run
  run-IsSafe [] ch h = h
  run-IsSafe (e ∷ es) ch h = run-IsSafe es (handle threshold_s e ch) (handle-IsSafe e ch h)

  handle-latched :
      (e : Event R) (ch : Channel R)
      → is_swap e ≡ false
      → is_error ch.latched_error ≡ true
      → (handle threshold_s e ch).latched_error ≡ ch.latched_error
  unfolding handle kick_watchdog set_cycle_index safety_tick chassis_halt cell_tick
  handle-latched (command now mode setpoint v t) ch s h =
      apply_command-latch now mode setpoint v t ch
  handle-latched (kicked now) ch s h = refl
  handle-latched (indexed cycle) ch s h = refl
  handle-latched (swapped chem) ch s h = cc
  handle-latched (safety now) ch s h = rw h
  handle-latched chassis_expired ch s h = ground arith
  handle-latched (physics dt ambient) ch s h = rw h

  -- No sequence of events without a chemistry change clears or replaces an error that is latched.
  pub run-latched :
      (es : List (Event R)) (ch : Channel R)
      → All (λ e. is_swap e ≡ false) es
      → is_error ch.latched_error ≡ true
      → (run threshold_s es ch).latched_error ≡ ch.latched_error
  unfolding run
  run-latched [] ch s h = refl
  run-latched (e ∷ es) ch s h =
      let same = handle-latched e ch s.0 h in
      run-latched es (handle threshold_s e ch) s.1 (rw same h) ∙ same

  handle-keeps_kick :
      (e : Event R) (ch : Channel R)
      → is_autonomous e ≡ true
      → (handle threshold_s e ch).last_kick_wall_s ≡ ch.last_kick_wall_s
  unfolding handle safety_tick chassis_halt cell_tick
  handle-keeps_kick (command now mode setpoint v t) ch a = cc
  handle-keeps_kick (kicked now) ch a = cc
  handle-keeps_kick (indexed cycle) ch a = cc
  handle-keeps_kick (swapped chem) ch a = cc
  handle-keeps_kick (safety now) ch a = ground arith
  handle-keeps_kick chassis_expired ch a = ground arith
  handle-keeps_kick (physics dt ambient) ch a = ground arith

  run-keeps_kick :
      (es : List (Event R)) (ch : Channel R)
      → All (λ e. is_autonomous e ≡ true) es
      → (run threshold_s es ch).last_kick_wall_s ≡ ch.last_kick_wall_s
  unfolding run
  run-keeps_kick [] ch a = refl
  run-keeps_kick (e ∷ es) ch a =
      run-keeps_kick es (handle threshold_s e ch) a.1 ∙ handle-keeps_kick e ch a.0

  -- If only the cycler's own events happen to a channel that is idle or has no error, in any order and
  -- number, then a turn of the safety loop later than the threshold after the last kick leaves it idle.
  pub silence-halts :
      (es : List (Event R)) (ch : Channel R) (now : R)
      → IsSafe ch
      → All (λ e. is_autonomous e ≡ true) es
      → fl.lt threshold_s (fl.sub now ch.last_kick_wall_s) ≡ true
      → (safety_tick threshold_s now (run threshold_s es ch)).mode ≡ idle
  silence-halts es ch now h a late =
      safety_tick-expired threshold_s now (run threshold_s es ch) (run-IsSafe es ch h)
        (rw (run-keeps_kick es ch a) late)
