-- ===== src/Watchdog/Chamber.antt =====
-- services/watchdog/src/watchdog/chamber_monitor.py: the breach timer of each chamber and the sweep.
pub mod Timer
use battery_lab_sim.Prelude.{
  ℕ, String, Bool, true, false, not, ◌&&◌, Option, none, some, List, [], ◌∷◌, String_eq,
  if◌then◌else◌,
}
use battery_lab_sim.Prelude.Float.{Float}
use battery_lab_sim.Prelude.Dict.{lookup, insert}
use battery_lab_sim.Watchdog.Dedupe.{AlertKey, AlertKey_eq, chamber_breach, EdgeTrigger, update}
use battery_lab_sim.Watchdog.Alerts.{Alert, warning}
use Prim.Native.String.{◌++◌ as str_append}

pub record ChamberState (R : Type 0) : Type 0 where
  pub last_measured_c : Option R
  pub last_setpoint_c : Option R
  pub breach_started : Option R
  pub last_msg : R

pub record ChamberStates (R : Type 0) : Type 0 where
  pub by_id : List (String × ChamberState R)
  pub started : R
  pub breach_band_c : R
  pub breach_duration_s : R
  pub startup_grace_s : R

-- A payload once parsed.
pub record Ambient (R : Type 0) : Type 0 where
  pub chamber_id : String
  pub measured_c : R
  pub setpoint_c : R

abbrev pub breach_alert : String → Alert
breach_alert cid = record {
  severity = warning;
  source = "watchdog.chamber";
  message = str_append "chamber_temp_breach:" cid;
  chassis_id = none;
  channel_idx = none;
}

module _ {R : Type 0} ⦃fl : Float R⦄ where
  unfoldable pub grace_active : R → ChamberStates R → Bool
  grace_active now states = fl.lt (fl.sub now states.started) states.startup_grace_s

  -- `_ChamberState()`, made at the time `now`.
  unfoldable pub fresh_state : R → ChamberState R
  fresh_state now = record {
    last_measured_c = none;
    last_setpoint_c = none;
    breach_started = none;
    last_msg = now;
  }

  unfoldable pub in_breach : R → Ambient R → Bool
  in_breach band msg = fl.lt band (fl.abs (fl.sub msg.measured_c msg.setpoint_c))

  -- The breach timer starts with the first reading out of the band and stops with one inside.
  unfoldable pub breach_timer : Bool → R → Option R → Option R
  breach_timer true now none = some now
  breach_timer true now (some t) = some t
  breach_timer false now timer = none

  unfoldable pub fold_msg : R → R → Ambient R → ChamberState R → ChamberState R
  unfolding in_breach breach_timer
  fold_msg now band msg st = record {
    last_measured_c = some msg.measured_c;
    last_setpoint_c = some msg.setpoint_c;
    breach_started = breach_timer (in_breach band msg) now st.breach_started;
    last_msg = now;
  }

  -- `setdefault(cid, _ChamberState())`
  unfoldable pub state_of : R → String → ChamberStates R → ChamberState R
  unfolding lookup fresh_state
  state_of now cid states = elim (lookup cid states.by_id) [ none ↦ fresh_state now | some st ↦ st ]

  -- `update_from_msg`, on a payload once parsed; one that does not parse is `none`.
  unfoldable pub update_from_msg : R → Option (Ambient R) → ChamberStates R → ChamberStates R
  unfolding fold_msg state_of insert
  update_from_msg now none states = states
  update_from_msg now (some msg) states = record states {
    by_id =
        insert msg.chamber_id
          (fold_msg now states.breach_band_c msg (state_of now msg.chamber_id states)) states.by_id;
  }

  unfoldable pub is_breach_sustained : R → ChamberState R → R → Bool
  is_breach_sustained now st breach_duration_s = elim st.breach_started [
    | none ↦ false
    | some since ↦ fl.lt breach_duration_s (fl.sub now since)
  ]

  unfoldable pub sweep_from :
      R
      → R
      → List (String × ChamberState R)
      → EdgeTrigger AlertKey
      → List Alert × EdgeTrigger AlertKey
  unfolding is_breach_sustained update
  sweep_from now duration [] edge = ([], edge)
  sweep_from now duration ((cid, st) ∷ rest) edge =
      let (fired, edge') = update (chamber_breach cid) (is_breach_sustained now st duration) edge in
      let (later, edge'') = sweep_from now duration rest edge' in
      (if fired then breach_alert cid ∷ later else later, edge'')

  -- One turn of `chamber_check_loop`, after its sleep.
  unfoldable pub sweep :
      R → ChamberStates R → EdgeTrigger AlertKey → List Alert × EdgeTrigger AlertKey
  unfolding grace_active sweep_from
  sweep now states edge =
      if grace_active now states
      then ([], edge)
      else sweep_from now states.breach_duration_s states.by_id edge
