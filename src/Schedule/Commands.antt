-- ===== src/Schedule/Commands.antt =====
-- The commands of a schedule's steps: what is clipped, and which modes occur.
use battery_lab_sim.Prelude.{◌≡◌, ◌⊎◌, true, false, some, arith}
use battery_lab_sim.Prelude.Float.{Float, lt_irrefl}
use battery_lab_sim.Schedule.{clip_rate}

module _ {R : Type 0} ⦃fl : Float R⦄ where
  -- A rate is never above the ceiling after clipping, and one that is not above it is kept.
  pub clip_rate-le :
      (rate ceiling : R)
      → (fl.lt ceiling (clip_rate rate (some ceiling)) ≡ false)
        × ((fl.lt ceiling rate ≡ true) ⊎ (clip_rate rate (some ceiling) ≡ rate))
  unfolding clip_rate
  clip_rate-le rate ceiling = (ground (arith, lt_irrefl ceiling), ground arith)
