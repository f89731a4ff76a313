-- ===== src/Cycler/Safety/Halts.antt =====
-- What one turn of each safety loop guarantees.
use battery_lab_sim.Prelude.{◌≡◌, refl, true, false, List, [], ◌∷◌, map, arith, All, if◌then◌else◌}
use battery_lab_sim.Prelude.Float.{Float}
use battery_lab_sim.Models.{overvoltage, overtemp, watchdog_timeout, is_error, idle}
use battery_lab_sim.Cycler.Channel.{Channel, read_state, watchdog_expired}
use battery_lab_sim.Cycler.Channel.Laws.{IsSafe}
use battery_lab_sim.Cycler.Safety.{
  ChassisKickState, over_voltage, over_temperature, safety_tick, chassis_halt, chassis_tick,
  expired, cell_tick,
}

module _ {R : Type 0} ⦃fl : Float R⦄ where
  pub safety_tick-IsSafe :
      (threshold now : R) (ch : Channel R) → IsSafe ch → IsSafe (safety_tick threshold now ch)
  unfolding safety_tick
  safety_tick-IsSafe threshold now ch h = ground arith

  -- If a channel has no error after a turn of the safety loop, it was within its voltage and temperature
  -- limits, its watchdog had not expired, its cell had no error, and the turn did not change it.
  pub safety_tick-within :
      (threshold now : R) (ch : Channel R)
      → is_error (safety_tick threshold now ch).latched_error ≡ false
      → (over_voltage ch ≡ false)
        × (over_temperature ch ≡ false)
        × (watchdog_expired now threshold ch ≡ false)
        × (is_error (read_state ch).latched_error ≡ false)
        × (safety_tick threshold now ch ≡ ch)
  unfolding safety_tick
  safety_tick-within threshold now ch h = ground arith

  -- The error of a turn is the one that was there, or names the first limit that is broken.
  pub safety_tick-reason :
      (threshold now : R) (ch : Channel R)
      → (safety_tick threshold now ch).latched_error ≡ (
          if is_error ch.latched_error
          then ch.latched_error
          else if over_voltage ch
          then overvoltage
          else if over_temperature ch
          then overtemp
          else if watchdog_expired now threshold ch
          then watchdog_timeout
          else if is_error (read_state ch).latched_error
          then (read_state ch).latched_error
          else ch.latched_error)
  unfolding safety_tick
  safety_tick-reason threshold now ch = ground arith

  -- An expired watchdog leaves the channel idle, whatever else is wrong.
  pub safety_tick-expired :
      (threshold now : R) (ch : Channel R)
      → IsSafe ch
      → fl.lt threshold (fl.sub now ch.last_kick_wall_s) ≡ true
      → (safety_tick threshold now ch).mode ≡ idle
  unfolding safety_tick
  safety_tick-expired threshold now ch h e = ground arith

  pub chassis_halt-idle : (ch : Channel R) → IsSafe ch → (chassis_halt ch).mode ≡ idle
  unfolding chassis_halt
  chassis_halt-idle ch h = ground arith

  pub chassis_halt-IsSafe : (ch : Channel R) → IsSafe ch → IsSafe (chassis_halt ch)
  unfolding chassis_halt
  chassis_halt-IsSafe ch h = ground arith

  pub map-chassis_halt-idle :
      (chs : List (Channel R)) → All IsSafe chs → All (λ ch. ch.mode ≡ idle) (map chassis_halt chs)
  map-chassis_halt-idle [] h = tt
  map-chassis_halt-idle (ch ∷ chs) h = (chassis_halt-idle ch h.0, map-chassis_halt-idle chs h.1)

  -- If the chassis was not kicked for longer than the threshold, and every channel is idle or has no
  -- error, then every channel is idle after the turn, and the chassis reports the trip.
  pub chassis_tick-expired :
      (threshold now : R) (chs : List (Channel R)) (k : ChassisKickState R)
      → All IsSafe chs
      → expired now threshold k ≡ true
      → All (λ ch. ch.mode ≡ idle) (chassis_tick threshold now chs k).0
        × ((chassis_tick threshold now chs k).1.tripped ≡ true)
  unfolding chassis_tick
  chassis_tick-expired threshold now chs k h e = rw e (map-chassis_halt-idle chs h, refl)

  pub cell_tick-IsSafe : (dt amb : R) (ch : Channel R) → IsSafe ch → IsSafe (cell_tick dt amb ch)
  unfolding cell_tick
  cell_tick-IsSafe dt amb ch h = ground arith
