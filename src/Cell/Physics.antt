-- ===== src/Cell/Physics.antt =====
-- What every tick of the cell keeps: the latch, the bounds of the state of charge, the cycle count.
use battery_lab_sim.Prelude.{◌≡◌, true, false, arith, Bool-cases, inl, inr}
use battery_lab_sim.Prelude.Float.{Float, clamp_bounds}
use battery_lab_sim.Models.{is_error}
use battery_lab_sim.Cell.{EcmCell, step, integrate, settle, age_tick, track_cycle, soh}

module _ {R : Type 0} ⦃fl : Float R⦄ where
  -- A latched cell is inert: no tick changes it.
  pub step-latched :
      (i dt amb : R) (c : EcmCell R) → is_error c.latched_error ≡ true → step i dt amb c ≡ c
  unfolding step
  step-latched i dt amb c h = rw h

  abbrev pub IsUnit : R → Type 0
  IsUnit x = (fl.lt x (fl.lit 0 0) ≡ false) × (fl.lt (fl.lit 1 0) x ≡ false)

  -- The state of charge after the physics lies in [0, 1].
  pub integrate-soc : (i dt amb : R) (c : EcmCell R) → IsUnit (integrate c i dt amb).soc
  unfolding integrate
  integrate-soc i dt amb c = clamp_bounds {R = R} _ _ _ (fl.lit_mono 0 1 0 (omega arith))

  pub settle-soc : (i dt : R) (c : EcmCell R) → (settle c i dt).soc ≡ c.soc
  unfolding settle age_tick track_cycle
  settle-soc i dt c = ground arith

  -- If the state of charge is in [0, 1], it is there after a tick with any current, step and ambient
  -- temperature.
  pub step-IsUnit_soc : (i dt amb : R) (c : EcmCell R) → IsUnit c.soc → IsUnit (step i dt amb c).soc
  unfolding step
  step-IsUnit_soc i dt amb c h = elim (Bool-cases (is_error c.latched_error)) [
    | inl e ↦ rw e h
    | inr e ↦ rw (e, settle-soc) (integrate-soc _ dt amb c)
  ]

  pub soh-IsUnit : (c : EcmCell R) → IsUnit (soh c.chem c.age)
  unfolding soh
  soh-IsUnit c = clamp_bounds {R = R} _ _ _ (fl.lit_mono 0 1 0 (omega arith))
