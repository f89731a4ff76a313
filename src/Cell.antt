-- ===== src/Cell.antt =====
-- libs/batterylab/src/batterylab/ecm.py and degradation.py: the equivalent-circuit cell with its
-- aging state. Positive current discharges.
pub mod Physics
use battery_lab_sim.Prelude.{
  ℕ, ◌+◌, Bool, true, false, not, ◌&&◌, Option, none, some, if◌then◌else◌,
}
use battery_lab_sim.Prelude.Float.{Float, fmin, fmax}
use battery_lab_sim.Models.{ErrorCode, is_error, CellState}
use battery_lab_sim.Chemistry.{ChemistryParams, ocv_lookup, r0}

pub record AgingState (R : Type 0) : Type 0 where
  pub q_loss_lli : R
  pub q_loss_lam : R
  pub cumulative_throughput_ah : R
  pub sim_seconds_elapsed : R
  pub cycle_count : ℕ
  pub last_cycle_dod : R

pub data Fault : Type 0 where
  internal_short thermal_runaway swelling dead : Fault

pub record EcmCell (R : Type 0) : Type 0 where
  pub chem : ChemistryParams R
  pub capacity_ah : R
  pub soc : R
  pub temperature_c : R
  pub v_rc : R
  pub age : AgingState R
  pub fault : Option Fault
  pub latched_error : ErrorCode
  pub aging_accum_s : R
  pub last_step_current : R
  pub at_top : Bool
  pub cycle_top_soc : R
  pub cycle_bottom_soc : R

abbrev is_dead : Option Fault → Bool
is_dead (some dead) = true
is_dead _ = false

abbrev is_short : Option Fault → Bool
is_short (some internal_short) = true
is_short _ = false

abbrev is_swelling : Option Fault → Bool
is_swelling (some swelling) = true
is_swelling _ = false

module _ {R : Type 0} ⦃fl : Float R⦄ where
  abbrev zero_f : R
  zero_f = fl.lit 0 0

  abbrev one_f : R
  one_f = fl.lit 1 0

  -- `AgingState()`
  unfoldable pub new_age : AgingState R
  new_age = record {
    q_loss_lli = fl.lit 0 0;
    q_loss_lam = fl.lit 0 0;
    cumulative_throughput_ah = fl.lit 0 0;
    sim_seconds_elapsed = fl.lit 0 0;
    cycle_count = 0;
    last_cycle_dod = fl.lit 0 0;
  }

  -- `ECMCell(chem=chem, capacity_ah=chem.capacity_ah_nominal, soc=0.5)`
  unfoldable pub new_cell : ChemistryParams R → EcmCell R
  unfolding new_age
  new_cell chem = record {
    chem = chem;
    capacity_ah = chem.capacity_ah_nominal;
    soc = fl.lit 5 1;
    temperature_c = fl.lit 25 0;
    v_rc = fl.lit 0 0;
    age = new_age;
    fault = none;
    latched_error = ErrorCode.none;
    aging_accum_s = fl.lit 0 0;
    last_step_current = fl.lit 0 0;
    at_top = true;
    cycle_top_soc = fl.lit 5 1;
    cycle_bottom_soc = fl.lit 5 1;
  }

  unfoldable pub step_calendar_lli : ChemistryParams R → AgingState R → R → R → R → AgingState R
  unfolding fmax
  step_calendar_lli chem age dt_s soc t_c =
      let elapsed = fl.add age.sim_seconds_elapsed dt_s in
      let soc_factor = fl.sqrt (fmax soc zero_f) in
      let t_factor = fl.exp (fl.div (fl.sub t_c (fl.lit 25 0)) (fl.lit 12 0)) in
      let sqrt_term = fl.div (fl.lit 5 1) (fmax (fl.sqrt elapsed) one_f) in
      let delta = fl.mul (fl.mul (fl.mul (fl.mul chem.k_cal dt_s) sqrt_term) soc_factor) t_factor in
      record age { sim_seconds_elapsed = elapsed; q_loss_lli = fl.add age.q_loss_lli delta }

  unfoldable pub step_throughput_lli : ChemistryParams R → AgingState R → R → AgingState R
  unfolding fmax
  step_throughput_lli chem age delta_throughput_ah =
      let total = fl.add age.cumulative_throughput_ah (fl.abs delta_throughput_ah) in
      let before = fmax zero_f (fl.sub total (fl.abs delta_throughput_ah)) in
      let grown =
        fl.sub (fl.mul chem.k_cyc (fl.sqrt (fl.div total chem.capacity_ah_nominal)))
          (fl.mul chem.k_cyc (fl.sqrt (fl.div before chem.capacity_ah_nominal))) in
      let delta = fl.mul (fmax grown zero_f) chem.anode_swelling_factor in
      record age { cumulative_throughput_ah = total; q_loss_lli = fl.add age.q_loss_lli delta }

  unfoldable pub on_cycle_complete : ChemistryParams R → AgingState R → R → AgingState R
  on_cycle_complete chem age dod = record age {
    cycle_count = age.cycle_count + 1;
    last_cycle_dod = dod;
    q_loss_lam = fl.add age.q_loss_lam (fl.mul chem.k_lam (fl.mul dod dod));
  }

  unfoldable pub soh : ChemistryParams R → AgingState R → R
  unfolding fmin fmax
  soh chem age =
      let q_eff = fl.sub (fl.sub chem.capacity_ah_nominal age.q_loss_lli) age.q_loss_lam in
      fmax zero_f (fmin one_f (fl.div q_eff chem.capacity_ah_nominal))

  unfoldable pub q_effective : EcmCell R → R
  unfolding fmax soh
  q_effective cell =
      fmax (fl.mul cell.chem.capacity_ah_nominal (soh cell.chem cell.age)) (fl.lit 1 3)

  -- `_read_state(latched=...)`
  unfoldable pub read_state_as : Bool → EcmCell R → CellState R
  unfolding ocv_lookup r0 soh
  read_state_as latched cell =
      let ocv = ocv_lookup cell.chem cell.soc cell.temperature_c in
      let current = if latched then zero_f else cell.last_step_current in
      record {
        voltage_v =
            if latched
            then fl.sub ocv cell.v_rc
            else fl.sub (fl.sub ocv (fl.mul current (r0 cell.chem cell.soc cell.temperature_c)))
                cell.v_rc;
        current_a = current;
        temperature_c = cell.temperature_c;
        soc = cell.soc;
        soh = soh cell.chem cell.age;
        cycle_count = cell.age.cycle_count;
        latched_error = cell.latched_error;
      }

  unfoldable pub read_state : EcmCell R → CellState R
  unfolding read_state_as is_error
  read_state cell = read_state_as (is_error cell.latched_error) cell

  -- The series resistance of one tick, with the faults that change it.
  unfoldable pub tick_r0 : EcmCell R → R
  unfolding r0
  tick_r0 cell =
      let base = r0 cell.chem cell.soc cell.temperature_c in
      let factor =
        fl.add one_f (fl.mul (fl.lit 1 2) (fl.div cell.age.sim_seconds_elapsed (fl.lit 86400 0))) in
      if is_short cell.fault
      then fl.lit 1 3
      else if is_swelling cell.fault && fl.lt (fl.lit 7 1) cell.soc
      then fl.mul base factor
      else base

  -- Coulomb counting, the RC pair and the lumped thermal mass.
  unfoldable pub integrate : EcmCell R → R → R → R → EcmCell R
  unfolding tick_r0 q_effective fmin fmax
  integrate cell current_a dt_s ambient_c =
      let chem = cell.chem in
      let series = tick_r0 cell in
      let dsoc =
        fl.div (fl.mul (fl.neg current_a) dt_s) (fl.mul (fl.lit 3600 0) (q_effective cell)) in
      let dv_rc =
        fl.mul
          (fl.sub (fl.div current_a chem.c1_farad)
            (fl.div cell.v_rc (fl.mul chem.r1_ohm chem.c1_farad)))
          dt_s in
      let q_gen = fl.mul (fl.mul current_a current_a) series in
      let dt_temp =
        fl.div (fl.sub q_gen (fl.mul chem.h_a_w_per_k (fl.sub cell.temperature_c ambient_c)))
          chem.thermal_mass_j_per_k in
      record cell {
        soc = fmax zero_f (fmin one_f (fl.add cell.soc dsoc));
        v_rc = fl.add cell.v_rc dv_rc;
        temperature_c = fl.add cell.temperature_c (fl.mul dt_temp dt_s);
      }

  -- The aging of one tick: throughput each time, the calendar once a second has accumulated.
  unfoldable pub age_tick : EcmCell R → R → R → EcmCell R
  unfolding step_throughput_lli step_calendar_lli
  age_tick cell current_a dt_s =
      let accum = fl.add cell.aging_accum_s dt_s in
      let throughput = fl.div (fl.mul (fl.abs current_a) dt_s) (fl.lit 3600 0) in
      let age = step_throughput_lli cell.chem cell.age throughput in
      if fl.le one_f accum
      then record cell {
        age = step_calendar_lli cell.chem age accum cell.soc cell.temperature_c;
        aging_accum_s = zero_f;
      }
      else record cell { age = age; aging_accum_s = accum }

  -- One cycle is: at the top, down below 0.95, and back above it.
  unfoldable pub track_cycle : EcmCell R → EcmCell R
  unfolding on_cycle_complete fmin
  track_cycle cell =
      let dod = fl.sub cell.cycle_top_soc cell.cycle_bottom_soc in
      let age =
        if fl.lt (fl.lit 5 1) dod then on_cycle_complete cell.chem cell.age dod else cell.age in
      if cell.at_top && fl.lt cell.soc (fl.lit 95 2)
      then record cell { cycle_top_soc = cell.soc; cycle_bottom_soc = cell.soc; at_top = false }
      else if not cell.at_top && fl.lt (fl.lit 95 2) cell.soc
      then record cell { age = age; at_top = true }
      else if not cell.at_top
      then record cell { cycle_bottom_soc = fmin cell.cycle_bottom_soc cell.soc }
      else cell

  -- The part of a tick after the physics: the runaway latch, or aging and cycle tracking.
  unfoldable pub settle : EcmCell R → R → R → EcmCell R
  unfolding age_tick track_cycle
  settle cell current_a dt_s =
      if fl.lt cell.chem.thermal_runaway_c cell.temperature_c
      then record cell { latched_error = ErrorCode.thermal_runaway }
      else record (track_cycle (age_tick cell current_a dt_s)) { last_step_current = current_a }

  -- `ECMCell.step`. The state that it returns is `read_state` of the result.
  unfoldable pub step : R → R → R → EcmCell R → EcmCell R
  unfolding integrate settle is_error
  step current_a dt_s ambient_c cell =
      let current = if is_dead cell.fault then zero_f else current_a in
      if is_error cell.latched_error
      then cell
      else settle (integrate cell current dt_s ambient_c) current dt_s
