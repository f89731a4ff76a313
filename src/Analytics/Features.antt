-- ===== src/Analytics/Features.antt =====
-- services/analytics/src/analytics/features.py
use battery_lab_sim.Prelude.{
  ℕ, zero, suc, ◌+◌, ◌-◌, Bool, not, ◌&&◌, ◌||◌, none, some, List, [], ◌∷◌, map, ltb, length,
  get_elem?, set, if◌then◌else◌,
}
use battery_lab_sim.Prelude.Int.{pos}
use battery_lab_sim.Prelude.Float.{Float}
use battery_lab_sim.Analytics.{Numerics}

pub record DqDvPeak (R : Type 0) : Type 0 where
  pub voltage_v : R
  pub dq_dv : R
  pub prominence : R

module _ {R : Type 0} ⦃fl : Float R⦄ where
  abbrev pub float_zero : R
  float_zero = fl.lit 0 0

  -- `np.diff(xs)`
  unfoldable pub diff : List R → List R
  diff [] = []
  diff (x ∷ []) = []
  diff (x ∷ y ∷ xs) = fl.sub y x ∷ diff (y ∷ xs)

  -- `(xs[:-1] + xs[1:]) / 2.0`
  unfoldable pub midpoints : List R → List R
  midpoints [] = []
  midpoints (x ∷ []) = []
  midpoints (x ∷ y ∷ xs) = fl.div (fl.add x y) (fl.lit 2 0) ∷ midpoints (y ∷ xs)

  -- `xs * ys`
  unfoldable pub times : List R → List R → List R
  times (x ∷ xs) (y ∷ ys) = fl.mul x y ∷ times xs ys
  times _ _ = []

  -- `xs[i]`
  unfoldable pub at : List R → ℕ → R
  at xs i = elim (get_elem? xs i) [ none ↦ float_zero | some x ↦ x ]

  -- `np.diff(xs, append=xs[-1])`
  unfoldable pub diff_to_last : List R → List R
  diff_to_last [] = []
  diff_to_last (x ∷ []) = fl.sub x x ∷ []
  diff_to_last (x ∷ y ∷ xs) = fl.sub y x ∷ diff_to_last (y ∷ xs)

  -- One value of `np.add.at(binned, idx, values)`
  unfoldable pub add_at : List R → ℕ → R → List R
  unfolding at
  add_at binned i value = set binned i (fl.add (at binned i) value)

  abbrev pub is_nonzero : R → Bool
  is_nonzero x = not (fl.le x float_zero && fl.le float_zero x)

  unfoldable pub count_nonzero : List R → ℕ
  count_nonzero [] = 0
  count_nonzero (x ∷ xs) = (if is_nonzero x then 1 else 0) + count_nonzero xs

  unfoldable pub zeros : ℕ → List R
  zeros zero = []
  zeros (suc n) = float_zero ∷ zeros n

  -- `abs(post - pre)` of the current below 1 mA gives no resistance.
  unfoldable pub estimate_r0_ohm : Numerics R → R → R → R → R → R
  estimate_r0_ohm np voltage_pre voltage_post current_pre current_post =
      let di = fl.sub current_post current_pre in
      if fl.lt (fl.abs di) (fl.lit 1 3)
      then np.nan
      else fl.abs (fl.div (fl.sub voltage_post voltage_pre) di)

  unfoldable pub r0_jump_pct : Numerics R → R → R → R
  r0_jump_pct np r0_now r0_prev =
      if not (np.is_finite r0_now) || not (np.is_finite r0_prev) || fl.le r0_prev float_zero
      then np.nan
      else fl.mul (fl.div (fl.sub r0_now r0_prev) r0_prev) (fl.lit 100 0)

  unfoldable pub coulomb_count_ah : Numerics R → List R → List R → R
  unfolding diff midpoints times
  coulomb_count_ah np current_a time_s =
      if ltb (length current_a) 2
      then float_zero
      else fl.div (np.sum (times (midpoints current_a) (diff time_s))) (fl.lit 3600 0)

  unfoldable pub coulombic_efficiency : Numerics R → List R → List R → List R → List R → R
  unfolding coulomb_count_ah
  coulombic_efficiency np discharge_current discharge_time_s charge_current charge_time_s =
      let q_dis = fl.abs (coulomb_count_ah np discharge_current discharge_time_s) in
      let q_chg = fl.abs (coulomb_count_ah np charge_current charge_time_s) in
      if fl.le q_chg float_zero then np.nan else fl.div q_dis q_chg

  -- `np.clip(np.digitize(v, bins) - 1, 0, len(bins) - 2)` of a list of at least two bins
  abbrev pub bin_of : Numerics R → List R → R → ℕ
  bin_of np bins v =
      let i = np.digitize v bins - 1 in if ltb (length bins - 2) i then length bins - 2 else i

  -- `np.add.at(binned_dq, idx, dq)`
  unfoldable pub bin_charge : Numerics R → List R → List R → List R → List R → List R
  unfolding add_at
  bin_charge np bins (v ∷ vs) (q ∷ qs) binned =
      bin_charge np bins vs qs (add_at binned (bin_of np bins v) q)
  bin_charge np bins _ _ binned = binned

  -- The charge in each voltage bin.
  unfoldable pub binned_dq : Numerics R → List R → List R → List R → List R → List R
  unfolding bin_charge zeros times diff_to_last
  binned_dq np bins voltage_v current_a time_s =
      let dq = map (λ q. fl.div q (fl.lit 3600 0)) (times current_a (diff_to_last time_s)) in
      bin_charge np bins voltage_v dq (zeros (length bins - 1))

  -- `peak_height` in the last place, and the window of 3.0 V to 4.5 V that the pipeline leaves as it is.
  unfoldable pub dq_dv_peaks : Numerics R → List R → List R → List R → ℕ → R → List (DqDvPeak R)
  unfolding binned_dq count_nonzero midpoints at
  dq_dv_peaks np voltage_v current_a time_s bin_mv peak_height =
      let bin_v = fl.div (fl.of_int (pos bin_mv)) (fl.lit 1000 0) in
      let bins = np.arange (fl.lit 3 0) (fl.add (fl.lit 45 1) bin_v) bin_v in
      let binned = binned_dq np bins voltage_v current_a time_s in
      let dqdv = map (λ q. fl.div q bin_v) binned in
      let abs_dqdv = map fl.abs dqdv in
      let centers = midpoints bins in
      let found = np.find_peaks abs_dqdv peak_height (fl.div peak_height (fl.lit 2 0)) in
      if ltb (length voltage_v) 3
      then []
      else if ltb (length bins) 3
      then []
      else if ltb (count_nonzero binned) 2
      then []
      else if fl.lt (np.maximum abs_dqdv) peak_height
      then []
      else map
          (λ (p : ℕ × R). record {
            voltage_v = at centers p.0;
            dq_dv = at dqdv p.0;
            prominence = p.1;
          })
          found
