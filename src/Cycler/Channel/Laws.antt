-- ===== src/Cycler/Channel/Laws.antt =====
-- The channel's commands: idempotence, the latch, the bounds of the control law.
use battery_lab_sim.Prelude.{ℕ, ◌≡◌, ◌⊎◌, inr, refl, true, false, arith}
use battery_lab_sim.Prelude.Float.{Float, clamp_bounds}
use battery_lab_sim.Models.{ErrorCode, is_error, ChannelMode, idle, cv, cp, CellState}
use battery_lab_sim.Cycler.Channel.{
  Channel, apply_command, halt, desired_current_a, mode_current, limit_current,
}

module _ {R : Type 0} ⦃fl : Float R⦄ where
  -- While an error is latched the channel is idle.
  abbrev pub IsSafe : Channel R → Type 0
  IsSafe ch = (is_error ch.latched_error ≡ false) ⊎ (ch.mode ≡ idle)

  -- The same command a second time, at any later time, changes nothing and reports no change.
  pub apply_command-idempotent :
      (now later : R) (mode : ChannelMode) (setpoint : R) (v t : ℕ) (ch : Channel R)
      → let ch' = (apply_command now mode setpoint v t ch).0 in
        apply_command later mode setpoint v t ch' ≡ (ch', false)
  unfolding apply_command
  apply_command-idempotent now later mode setpoint v t ch = ground (arith, fl.lt_self setpoint 9)

  pub apply_command-IsSafe :
      (now : R) (mode : ChannelMode) (setpoint : R) (v t : ℕ) (ch : Channel R)
      → IsSafe ch
      → IsSafe (apply_command now mode setpoint v t ch).0
  unfolding apply_command
  apply_command-IsSafe now mode setpoint v t ch h = ground arith

  -- Nothing but `halt` and `reset` writes the latch.
  pub apply_command-latch :
      (now : R) (mode : ChannelMode) (setpoint : R) (v t : ℕ) (ch : Channel R)
      → (apply_command now mode setpoint v t ch).0.latched_error ≡ ch.latched_error
  unfolding apply_command
  apply_command-latch now mode setpoint v t ch = ground arith

  pub halt-IsSafe : (e : ErrorCode) (ch : Channel R) → IsSafe (halt e ch)
  unfolding halt
  halt-IsSafe e ch = inr refl

  -- The first error stays.
  pub halt-keeps_first :
      (e : ErrorCode) (ch : Channel R)
      → is_error ch.latched_error ≡ true
      → (halt e ch).latched_error ≡ ch.latched_error
  unfolding halt
  halt-keeps_first e ch h = rw h

  -- A channel without a latched error has, after a command, the commanded mode and envelope, and its
  -- setpoint is not more than 1e-9 away from the commanded one.
  pub apply_command-commanded :
      (now : R) (mode : ChannelMode) (setpoint : R) (v t : ℕ) (ch : Channel R)
      → is_error ch.latched_error ≡ false
      → let ch' = (apply_command now mode setpoint v t ch).0 in
        (ch'.mode ≡ mode)
        × (ch'.safety_v_max_mv ≡ v)
        × (ch'.safety_t_max_dc ≡ t)
        × (fl.lt (fl.lit 1 9) (fl.abs (fl.sub ch'.setpoint setpoint)) ≡ false)
  unfolding apply_command
  apply_command-commanded now mode setpoint v t ch h = ground (arith, fl.lt_self setpoint 9)

  -- A latched channel drives no current, in any mode.
  pub desired_current_a-latched :
      (state : CellState R) (ch : Channel R)
      → is_error ch.latched_error ≡ true
      → desired_current_a state ch ≡ fl.lit 0 0
  unfolding desired_current_a
  desired_current_a-latched state ch h = rw h

  abbrev pub IsWithin : R → R → Type 0
  IsWithin limit i = (fl.lt i (fl.neg limit) ≡ false) × (fl.lt limit i ≡ false)

  pub limit_current-IsWithin :
      (ch : Channel R) (i : R)
      → fl.lt ch.cv_current_limit_a (fl.neg ch.cv_current_limit_a) ≡ false
      → IsWithin ch.cv_current_limit_a (limit_current ch i)
  unfolding limit_current
  limit_current-IsWithin ch i h = clamp_bounds {R = R} _ _ _ h

  -- In the modes cv and cp the current that is asked for is between the negated and the positive
  -- current limit, if the limit is not below its negation.
  pub mode_current-cv :
      (state : CellState R) (ch : Channel R)
      → fl.lt ch.cv_current_limit_a (fl.neg ch.cv_current_limit_a) ≡ false
      → IsWithin ch.cv_current_limit_a (mode_current cv state ch)
        × IsWithin ch.cv_current_limit_a (mode_current cp state ch)
  unfolding mode_current
  mode_current-cv state ch h = (limit_current-IsWithin ch _ h, limit_current-IsWithin ch _ h)
