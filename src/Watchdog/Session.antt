-- ===== src/Watchdog/Session.antt =====
-- services/watchdog/src/watchdog/main.py: a session of the watchdog on one connection to the broker, in
-- which the monitors share one edge trigger, and the sessions one after the other.
pub mod Shared
use battery_lab_sim.Prelude.{ℕ, Bool, Option, none, some, List, [], ◌∷◌, ◌++◌}
use battery_lab_sim.Prelude.Float.{Float}
use battery_lab_sim.Watchdog.Dedupe.{AlertKey, EdgeTrigger}
use battery_lab_sim.Watchdog.Alerts.{Alert}
use battery_lab_sim.Watchdog.Chassis.{poll}
use battery_lab_sim.Watchdog.Chamber.{ChamberStates, Ambient, update_from_msg, sweep}
use battery_lab_sim.Watchdog.Fleet.{
  count_recent_failures, fleet_monitor_step, heartbeat_check, session_start,
}

-- The part of `MonitorTunables` that the monitors' turns read; the periods are the times of the events.
pub record MonitorTunables (R : Type 0) : Type 0 where
  pub heartbeat_threshold_s : R
  pub chamber_breach_band_c : R
  pub chamber_breach_duration_s : R
  pub chamber_startup_grace_s : R
  pub fleet_threshold : ℕ

-- A message, by the topic that it matches; a payload that does not parse is `none`.
pub data Message (R : Type 0) : Type 0 where
  heartbeat_topic other_topic : Message R
  chamber_topic : Option (Ambient R) → Message R

pub record Session (R : Type 0) : Type 0 where
  pub last_rx : R
  pub chambers : ChamberStates R
  pub edge : EdgeTrigger AlertKey

-- What happens in a session, in the order in which the event loop runs it: a message, or a turn of one of
-- the four monitors with the answers of its polls.
pub data Event (R : Type 0) : Type 0 where
  message : (now : R) → Message R → Event R
  heartbeat_turn chamber_turn : (now : R) → Event R
  chassis_turn : (in_grace : Bool) → List (ℕ × Option ℕ) → Event R
  fleet_turn : Option ℕ → Event R

module _ {R : Type 0} ⦃fl : Float R⦄ where
  -- `_dispatch_messages`
  unfoldable pub dispatch_message : R → Message R → Session R → Session R
  unfolding update_from_msg
  dispatch_message now heartbeat_topic s = record s { last_rx = now }
  dispatch_message now (chamber_topic msg) s = record s {
    chambers = update_from_msg now msg s.chambers;
  }
  dispatch_message now other_topic s = s

  -- The start of `_run_session`, at the time `now`: the states are new, and the edge trigger is that of
  -- the sessions before.
  unfoldable pub new_session : MonitorTunables R → R → EdgeTrigger AlertKey → Session R
  unfolding session_start
  new_session t now edge = record {
    last_rx = now;
    chambers = record {
      by_id = [];
      started = now;
      breach_band_c = t.chamber_breach_band_c;
      breach_duration_s = t.chamber_breach_duration_s;
      startup_grace_s = t.chamber_startup_grace_s;
    };
    edge = session_start edge;
  }

  -- The alerts of an event, and the session after it.
  unfoldable pub handle : MonitorTunables R → Event R → Session R → List Alert × Session R
  unfolding dispatch_message heartbeat_check sweep poll fleet_monitor_step count_recent_failures
  handle t (message now msg) s = ([], dispatch_message now msg s)
  handle t (heartbeat_turn now) s =
      let (alerts, edge) = heartbeat_check t.heartbeat_threshold_s s.last_rx now s.edge in
      (alerts, record s { edge = edge })
  handle t (chamber_turn now) s =
      let (alerts, edge) = sweep now s.chambers s.edge in (alerts, record s { edge = edge })
  handle t (chassis_turn in_grace answers) s =
      let (alerts, edge) = poll in_grace answers s.edge in (alerts, record s { edge = edge })
  handle t (fleet_turn answer) s =
      let (alerts, edge) =
        fleet_monitor_step t.fleet_threshold (count_recent_failures answer) s.edge in
      (alerts, record s { edge = edge })

  unfoldable pub run_session :
      MonitorTunables R → List (Event R) → Session R → List Alert × Session R
  unfolding handle
  run_session t [] s = ([], s)
  run_session t (e ∷ es) s =
      let (now, s') = handle t e s in let (later, s'') = run_session t es s' in (now ++ later, s'')

  -- The loop of `_run`: each session has the time of its start and its events.
  unfoldable pub run_sessions :
      MonitorTunables R → List (R × List (Event R)) → EdgeTrigger AlertKey → List Alert
  unfolding new_session run_session
  run_sessions t [] edge = []
  run_sessions t ((now, es) ∷ sessions) edge =
      let (alerts, s) = run_session t es (new_session t now edge) in
      alerts ++ run_sessions t sessions s.edge
