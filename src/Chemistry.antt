-- ===== src/Chemistry.antt =====
-- libs/batterylab/src/batterylab/chemistry.py: the parameters of the four cell chemistries.
use battery_lab_sim.Prelude.{ℕ, String, Option, none, some, List, [], ◌∷◌, map, if◌then◌else◌}
use battery_lab_sim.Prelude.Int.{pos}
use battery_lab_sim.Prelude.Float.{Float, fmin, fmax}
use text.Mathlib.Text.{◌==◌ as str_eq}

pub data Anode : Type 0 where
  graphite silicon_carbon : Anode

pub record ChemistryParams (R : Type 0) : Type 0 where
  pub name : String
  pub ocv_25c : List R
  pub capacity_ah_nominal : R
  pub r0_25c_ohm : R
  pub r1_ohm : R
  pub c1_farad : R
  pub h_a_w_per_k : R
  pub thermal_mass_j_per_k : R
  pub v_max_mv : ℕ
  pub thermal_runaway_c : R
  pub anode : Anode
  pub max_charge_c_rate : R
  pub anode_swelling_factor : R
  pub k_cal : R
  pub k_cyc : R
  pub k_lam : R
  pub r0_temp_coef_per_c : R

module _ {R : Type 0} ⦃fl : Float R⦄ where
  -- Tables in hundredths of a volt, and the grid 0.0, 0.1 … 1.0.
  unfoldable pub hundredths : List ℕ → List R
  hundredths = map (λ n. fl.lit n 2)

  unfoldable pub nmc_ocv : List R
  unfolding hundredths
  nmc_ocv = hundredths (300 ∷ 345 ∷ 355 ∷ 362 ∷ 370 ∷ 378 ∷ 388 ∷ 400 ∷ 414 ∷ 428 ∷ 440 ∷ [])

  unfoldable pub lco_ocv : List R
  unfolding hundredths
  lco_ocv = hundredths (300 ∷ 355 ∷ 365 ∷ 372 ∷ 378 ∷ 385 ∷ 392 ∷ 402 ∷ 414 ∷ 426 ∷ 435 ∷ [])

  -- `tuple(i / 10 for i in range(11))`
  unfoldable pub soc_grid : List R
  soc_grid =
      map (λ (i : ℕ). fl.div (fl.of_int (pos i)) (fl.of_int (pos 10)))
        (0 ∷ 1 ∷ 2 ∷ 3 ∷ 4 ∷ 5 ∷ 6 ∷ 7 ∷ 8 ∷ 9 ∷ 10 ∷ [])

  unfoldable pub ocv_lookup : ChemistryParams R → R → R → R
  unfolding soc_grid fmin fmax
  ocv_lookup chem soc t_c =
      let clamped = fmax (fl.lit 0 0) (fmin (fl.lit 1 0) soc) in
      fl.add (fl.interp clamped soc_grid chem.ocv_25c)
        (fl.mul (fl.lit 3 4) (fl.sub t_c (fl.lit 25 0)))

  unfoldable pub r0 : ChemistryParams R → R → R → R
  unfolding fmax
  r0 chem soc t_c =
      let edge =
        fl.mul
          (fl.add (fmax (fl.lit 0 0) (fl.sub (fl.lit 1 1) soc))
            (fmax (fl.lit 0 0) (fl.sub soc (fl.lit 9 1))))
          (fl.lit 5 0) in
      let base = fl.mul chem.r0_25c_ohm (fl.add (fl.lit 1 0) (fl.mul (fl.lit 5 1) edge)) in
      let scaled =
        fl.mul base
          (fl.add (fl.lit 1 0) (fl.mul chem.r0_temp_coef_per_c (fl.sub t_c (fl.lit 25 0)))) in
      fmax scaled (fl.lit 1 4)

  -- The entries of `CHEMISTRIES`, with the dataclass defaults written out.
  unfoldable pub nmc_params : ChemistryParams R
  unfolding nmc_ocv
  nmc_params = record {
    name = "NMC";
    ocv_25c = nmc_ocv;
    capacity_ah_nominal = fl.lit 3 0;
    r0_25c_ohm = fl.lit 30 3;
    r1_ohm = fl.lit 15 3;
    c1_farad = fl.lit 2000 0;
    h_a_w_per_k = fl.lit 4 1;
    thermal_mass_j_per_k = fl.lit 80 0;
    v_max_mv = 4400;
    thermal_runaway_c = fl.lit 130 0;
    anode = graphite;
    max_charge_c_rate = fl.lit 3 0;
    anode_swelling_factor = fl.lit 1 0;
    k_cal = fl.lit 1 7;
    k_cyc = fl.lit 6 3;
    k_lam = fl.lit 4 4;
    r0_temp_coef_per_c = fl.neg (fl.lit 5 3);
  }

  unfoldable pub lco_params : ChemistryParams R
  unfolding nmc_params lco_ocv
  lco_params = record nmc_params {
    name = "LCO";
    ocv_25c = lco_ocv;
    r0_25c_ohm = fl.lit 40 3;
    v_max_mv = 4350;
    thermal_runaway_c = fl.lit 150 0;
    k_cal = fl.lit 8 8;
    k_cyc = fl.lit 7 3;
    k_lam = fl.lit 5 4;
  }

  unfoldable pub nmc_sic_params : ChemistryParams R
  unfolding nmc_params
  nmc_sic_params = record nmc_params {
    name = "NMC+SiC";
    capacity_ah_nominal = fl.lit 345 2;
    anode = silicon_carbon;
    max_charge_c_rate = fl.lit 15 1;
    anode_swelling_factor = fl.lit 15 1;
  }

  unfoldable pub lco_sic_params : ChemistryParams R
  unfolding lco_params
  lco_sic_params = record lco_params {
    name = "LCO+SiC";
    capacity_ah_nominal = fl.lit 345 2;
    anode = silicon_carbon;
    max_charge_c_rate = fl.lit 15 1;
    anode_swelling_factor = fl.lit 15 1;
  }

  -- `none` is the `ValueError` of an unknown name.
  unfoldable pub get_chemistry : String → Option (ChemistryParams R)
  get_chemistry s =
      if str_eq s "NMC"
      then some nmc_params
      else if str_eq s "LCO"
      then some lco_params
      else if str_eq s "NMC+SiC"
      then some nmc_sic_params
      else if str_eq s "LCO+SiC"
      then some lco_sic_params
      else none
