-- ===== src/Examples/WatchdogRuns.antt =====
-- The theorems on the watchdog at concrete inputs.
use battery_lab_sim.Prelude.{
  Bool, ◌≡◌, refl, some, none, true, false, List, [], ◌∷◌, arith, String_eq,
}
use battery_lab_sim.Prelude.Int.{ℤ, ◌-ℤ◌}
use battery_lab_sim.Prelude.Float.{fixed_point}
use battery_lab_sim.Prelude.Dict.{lookup}
use battery_lab_sim.Watchdog.Dedupe.{AlertKey, AlertKey_eq, mass_failure, chassis_tripped}
use battery_lab_sim.Watchdog.Dedupe.Edges.{answers, rising, conditions, answers-eq-rising}
use battery_lab_sim.Watchdog.Chassis.{monitor}
use battery_lab_sim.Watchdog.Chassis.Grace.{always, tripped_at_boot-silent}
use battery_lab_sim.Watchdog.Chamber.{ChamberState, ChamberStates, Ambient}
use battery_lab_sim.Watchdog.Chamber.Timer.{update_all, IsBreachedSince, update_all-IsBreachedSince}
use battery_lab_sim.Watchdog.Fleet.{mass_failure_alert, fleet_monitor}
use battery_lab_sim.Watchdog.Fleet.Rollup.{failed_poll-alerts_twice}
use battery_lab_sim.Watchdog.Session.{
  MonitorTunables, message, heartbeat_topic, heartbeat_turn, fleet_turn, chassis_turn, Event,
  new_session, run_session,
}
use battery_lab_sim.Watchdog.Session.Shared.{of_heartbeat, watch_all, new_session-watched}
use battery_lab_sim.Examples.Samples.{whole}

abbrev updates : List (AlertKey × Bool)
updates =
    (mass_failure, true)
    ∷ (chassis_tripped 1, true)
    ∷ (mass_failure, true)
    ∷ (mass_failure, false)
    ∷ (mass_failure, true)
    ∷ []

answers-eq-rising_example :
    answers mass_failure updates [] ≡ rising false (conditions mass_failure updates)
unfolding lookup
answers-eq-rising_example = answers-eq-rising mass_failure updates []

tripped_at_boot-silent_example : monitor 3 0 (always 1 10) [] ≡ []
tripped_at_boot-silent_example = tripped_at_boot-silent 1 3 10 (omega arith)

failed_poll-alerts_twice_example :
    (fleet_monitor 5 (some 6 ∷ none ∷ some 7 ∷ []) []).0
    ≡ mass_failure_alert ∷ mass_failure_alert ∷ []
unfolding lookup
failed_poll-alerts_twice_example =
    failed_poll-alerts_twice 5 6 7 [] refl (omega arith) (omega arith) (omega arith)

abbrev hot : Ambient ℤ
hot = record { chamber_id = "A"; measured_c = whole 30; setpoint_c = whole 25 }

abbrev cool : Ambient ℤ
cool = record { chamber_id = "A"; measured_c = whole 25; setpoint_c = whole 25 }

abbrev calm : ChamberState ℤ
calm = record {
  last_measured_c = none;
  last_setpoint_c = none;
  breach_started = none;
  last_msg = whole 0;
}

abbrev chambers : ChamberStates ℤ
chambers = record {
  by_id = ("A", calm) ∷ ("B", calm) ∷ [];
  started = whole 0;
  breach_band_c = whole 2;
  breach_duration_s = whole 60;
  startup_grace_s = whole 30;
}

abbrev other_hot : Ambient ℤ
other_hot = record hot { chamber_id = "B" }

update_all-IsBreachedSince_example : IsBreachedSince "A" (whole 3) (whole 90) (whole 60) (
    update_all
      ((whole 1, some cool)
        ∷ (whole 2, some other_hot)
        ∷ (whole 3, some hot)
        ∷ (whole 4, none)
        ∷ (whole 5, some hot)
        ∷ [])
      chambers)
unfolding ◌-ℤ◌
update_all-IsBreachedSince_example =
    update_all-IsBreachedSince "A" (whole 1) (whole 3) (whole 90) (whole 60) cool hot []
      ((whole 2, some other_hot) ∷ []) ((whole 4, none) ∷ (whole 5, some hot) ∷ []) chambers refl
      refl (refl, tt) refl refl (tt, (refl, tt))

abbrev tunables : MonitorTunables ℤ
tunables = record {
  heartbeat_threshold_s = whole 10;
  chamber_breach_band_c = whole 5;
  chamber_breach_duration_s = whole 60;
  chamber_startup_grace_s = whole 30;
  fleet_threshold = 3;
}

abbrev session_events : List (Event ℤ)
session_events =
    message (whole 2) heartbeat_topic
    ∷ fleet_turn (some 4)
    ∷ heartbeat_turn (whole 20)
    ∷ chassis_turn false ((1, none) ∷ [])
    ∷ []

new_session-watched_example :
    of_heartbeat (run_session tunables session_events (new_session tunables (whole 0) [])).0
    ≡ watch_all (whole 10) session_events (record { last_rx = whole 0; stale = none })
new_session-watched_example = new_session-watched tunables (whole 0) session_events []
