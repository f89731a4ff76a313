-- ===== src/Analytics.antt =====
-- services/analytics/src/analytics: the features of a cycle. numpy, scipy and the order of a query are
-- the interface `Numerics`; an array is a list.
pub mod Features
pub mod Pipeline
pub mod Tables
pub mod Process
pub mod Replay
pub mod Anomaly
use battery_lab_sim.Prelude.{ℕ, ◌<◌, ◌≡◌, String, Option, Bool, false, List, length}
use mathlib.Core.List.{Memᴰ}

-- A row that `fetch_cycle_telemetry` returns.
pub record Sample (R : Type 0) : Type 0 where
  pub time : R
  pub voltage_v : Option R
  pub current_a : Option R
  pub temperature_c : Option R
  pub step_name : String

pub record Numerics (R : Type 0) : Type 0 where
  pub nan : R
  -- `np.isfinite(x)`
  pub is_finite : R → Bool
  -- `np.sum(xs)` and `xs.max()`
  pub sum : List R → R
  pub maximum : List R → R
  -- `np.arange(start, stop, step)` and, for one value, `np.digitize(x, bins)`
  pub arange : R → R → R → List R
  pub digitize : R → List R → ℕ
  -- `find_peaks(xs, height=h, prominence=p)`: the indexes with the prominences
  pub find_peaks : List R → R → R → List (ℕ × R)
  -- A float in a REAL column
  pub to_real : R → R
  -- `ORDER BY time`
  pub order_by_time : List (Sample R) → List (Sample R)
  pub nan_not_finite : is_finite nan ≡ false
  pub find_peaks_lt :
      (xs : List R) (h p : R) (peak : ℕ × R) → Memᴰ peak (find_peaks xs h p) → peak.0 < length xs
