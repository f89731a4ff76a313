-- ===== src/Watchdog/Session/Shared.antt =====
-- The monitors share the edge trigger and do not disturb each other.
use battery_lab_sim.Prelude.{
  ℕ, ◌≡◌, refl, ◌∙◌, ap, Bool, true, false, not, ◌&&◌, Option, none, some, List, [], ◌∷◌, ◌++◌,
  arith, Bool-cases, inl, inr, String, ◌==◌, leb, if◌then◌else◌,
}
use battery_lab_sim.Prelude.Float.{Float}
use battery_lab_sim.Prelude.Dict.{lookup, insert, lookup-insert, lookup-erase}
use battery_lab_sim.Watchdog.Dedupe.{AlertKey, AlertKey_eq, heartbeat_stale, EdgeTrigger, is_true}
use battery_lab_sim.Watchdog.Alerts.{Alert}
use battery_lab_sim.Watchdog.Chassis.{probe, poll}
use battery_lab_sim.Watchdog.Chamber.{
  ChamberStates, ChamberState, is_breach_sustained, sweep_from, sweep, grace_active,
}
use battery_lab_sim.Watchdog.Fleet.{
  count_recent_failures, fleet_monitor_step, heartbeat_check, stale_alert, session_start,
}
use battery_lab_sim.Watchdog.Session.{
  MonitorTunables, heartbeat_topic, other_topic, chamber_topic, Session, Event, message,
  heartbeat_turn, chamber_turn, chassis_turn, fleet_turn, dispatch_message, new_session, handle,
  run_session,
}
use text.Mathlib.Text.{◌==◌ as str_eq}

-- The last condition of the heartbeat.
abbrev pub stale_in : EdgeTrigger AlertKey → Option Bool
stale_in edge = lookup heartbeat_stale edge

stale_in-probe :
    (g : Bool) (id : ℕ) (answer : Option ℕ) (edge : EdgeTrigger AlertKey)
    → stale_in (probe g id answer edge).1 ≡ stale_in edge
unfolding probe
stale_in-probe g id none edge =
    lookup-insert (AlertKey.chassis_tripped id) heartbeat_stale false
      (insert (AlertKey.chassis_unreachable id) true edge)
    ∙ lookup-insert (AlertKey.chassis_unreachable id) heartbeat_stale true edge
stale_in-probe g id (some v) edge =
    lookup-insert (AlertKey.chassis_tripped id) heartbeat_stale (v == 1)
      (insert (AlertKey.chassis_unreachable id) false edge)
    ∙ lookup-insert (AlertKey.chassis_unreachable id) heartbeat_stale false edge

stale_in-poll :
    (g : Bool) (answers : List (ℕ × Option ℕ)) (edge : EdgeTrigger AlertKey)
    → stale_in (poll g answers edge).1 ≡ stale_in edge
unfolding poll
stale_in-poll g [] edge = refl
stale_in-poll g ((id, answer) ∷ answers) edge =
    stale_in-poll g answers (probe g id answer edge).1 ∙ stale_in-probe g id answer edge

-- The alerts of the heartbeat monitor.
unfoldable pub of_heartbeat : List Alert → List Alert
of_heartbeat [] = []
of_heartbeat (a ∷ alerts) =
    let rest = of_heartbeat alerts in if str_eq a.source stale_alert.source then a ∷ rest else rest

of_heartbeat-append :
    (xs ys : List Alert) → of_heartbeat (xs ++ ys) ≡ of_heartbeat xs ++ of_heartbeat ys
unfolding of_heartbeat
of_heartbeat-append [] ys = refl
of_heartbeat-append (x ∷ xs) ys = ground (arith, of_heartbeat-append xs ys)

of_heartbeat-probe :
    (g : Bool) (id : ℕ) (answer : Option ℕ) (edge : EdgeTrigger AlertKey)
    → of_heartbeat (probe g id answer edge).0 ≡ []
unfolding probe of_heartbeat
of_heartbeat-probe g id none edge = ground arith
of_heartbeat-probe g id (some v) edge = ground arith

of_heartbeat-poll :
    (g : Bool) (answers : List (ℕ × Option ℕ)) (edge : EdgeTrigger AlertKey)
    → of_heartbeat (poll g answers edge).0 ≡ []
unfolding poll of_heartbeat
of_heartbeat-poll g [] edge = refl
of_heartbeat-poll g ((id, answer) ∷ answers) edge =
    let r = probe g id answer edge in
    of_heartbeat-append r.0 (poll g answers r.1).0
    ∙ rw (of_heartbeat-probe g id answer edge) (of_heartbeat-poll g answers r.1)

of_heartbeat-fleet :
    (threshold n : ℕ) (edge : EdgeTrigger AlertKey)
    → of_heartbeat (fleet_monitor_step threshold n edge).0 ≡ []
unfolding fleet_monitor_step of_heartbeat
of_heartbeat-fleet threshold n edge = ground arith

stale_in-fleet :
    (threshold n : ℕ) (edge : EdgeTrigger AlertKey)
    → stale_in (fleet_monitor_step threshold n edge).1 ≡ stale_in edge
unfolding fleet_monitor_step
stale_in-fleet threshold n edge =
    lookup-insert AlertKey.mass_failure heartbeat_stale (leb threshold n) edge

module _ {R : Type 0} ⦃fl : Float R⦄ where
  stale_in-sweep_from :
      (now duration : R) (sts : List (String × ChamberState R)) (edge : EdgeTrigger AlertKey)
      → stale_in (sweep_from now duration sts edge).1 ≡ stale_in edge
  unfolding sweep_from
  stale_in-sweep_from now duration [] edge = refl
  stale_in-sweep_from now duration ((cid, st) ∷ sts) edge =
      let sustained = is_breach_sustained now st duration in
      stale_in-sweep_from now duration sts (insert (AlertKey.chamber_breach cid) sustained edge)
      ∙ lookup-insert (AlertKey.chamber_breach cid) heartbeat_stale sustained edge

  of_heartbeat-sweep_from :
      (now duration : R) (sts : List (String × ChamberState R)) (edge : EdgeTrigger AlertKey)
      → of_heartbeat (sweep_from now duration sts edge).0 ≡ []
  unfolding sweep_from of_heartbeat
  of_heartbeat-sweep_from now duration [] edge = refl
  of_heartbeat-sweep_from now duration ((cid, st) ∷ sts) edge =
      let sustained = is_breach_sustained now st duration in
      ground (
        arith,
        of_heartbeat-sweep_from now duration sts
            (insert (AlertKey.chamber_breach cid) sustained edge),
      )

  stale_in-sweep :
      (now : R) (states : ChamberStates R) (edge : EdgeTrigger AlertKey)
      → (stale_in (sweep now states edge).1 ≡ stale_in edge)
        × (of_heartbeat (sweep now states edge).0 ≡ [])
  unfolding sweep of_heartbeat
  stale_in-sweep now states edge = elim (Bool-cases (grace_active now states)) [
    | inl e ↦ rw (e, sweep) (refl, refl)
    | inr e ↦
        rw (e, sweep)
          (
            stale_in-sweep_from now states.breach_duration_s states.by_id edge,
            of_heartbeat-sweep_from now states.breach_duration_s states.by_id edge,
          )
  ]

-- The heartbeat monitor by itself: the time of the last heartbeat, and its last condition.
pub record Watch (R : Type 0) : Type 0 where
  pub last_rx : R
  pub stale : Option Bool

module _ {R : Type 0} ⦃fl : Float R⦄ where
  unfoldable pub watch : R → Event R → Watch R → List Alert × Watch R
  watch threshold (message now heartbeat_topic) h = ([], record h { last_rx = now })
  watch threshold (heartbeat_turn now) h =
      let gap = fl.lt threshold (fl.sub now h.last_rx) in
      (if gap && not (is_true h.stale) then stale_alert ∷ [] else [], record h { stale = some gap })
  watch threshold e h = ([], h)

  unfoldable pub watch_all : R → List (Event R) → Watch R → List Alert
  unfolding watch
  watch_all threshold [] h = []
  watch_all threshold (e ∷ es) h =
      let (now, h') = watch threshold e h in now ++ watch_all threshold es h'

  abbrev pub seen : Session R → Watch R
  seen s = record { last_rx = s.last_rx; stale = stale_in s.edge }

  abbrev IsWatched : MonitorTunables R → Event R → Session R → Type 0
  IsWatched t e s =
      (seen (handle t e s).1 ≡ (watch t.heartbeat_threshold_s e (seen s)).1)
      × (of_heartbeat (handle t e s).0 ≡ (watch t.heartbeat_threshold_s e (seen s)).0)

  heartbeat_turn-IsWatched :
      (t : MonitorTunables R) (now : R) (s : Session R) → IsWatched t (heartbeat_turn now) s
  unfolding handle watch heartbeat_check of_heartbeat
  heartbeat_turn-IsWatched t now s =
      let gap = fl.lt t.heartbeat_threshold_s (fl.sub now s.last_rx) in
      (
        ap (λ o. record { last_rx = s.last_rx; stale = o })
            (lookup-insert heartbeat_stale heartbeat_stale gap s.edge),
        elim (Bool-cases (gap && not (is_true (stale_in s.edge)))) [
          | inl e ↦ rw e refl
          | inr e ↦ rw e refl
        ],
      )

  handle-IsWatched : (t : MonitorTunables R) (e : Event R) (s : Session R) → IsWatched t e s
  unfolding handle watch dispatch_message of_heartbeat
  handle-IsWatched t (message now heartbeat_topic) s = (refl, refl)
  handle-IsWatched t (message now (chamber_topic msg)) s = (refl, refl)
  handle-IsWatched t (message now other_topic) s = (refl, refl)
  handle-IsWatched t (heartbeat_turn now) s = heartbeat_turn-IsWatched t now s
  handle-IsWatched t (chamber_turn now) s =
      let same = stale_in-sweep now s.chambers s.edge in
      (ap (λ o. record { last_rx = s.last_rx; stale = o }) same.0, same.1)
  handle-IsWatched t (chassis_turn in_grace answers) s = (
    ap (λ o. record { last_rx = s.last_rx; stale = o }) (stale_in-poll in_grace answers s.edge),
    of_heartbeat-poll in_grace answers s.edge,
  )
  handle-IsWatched t (fleet_turn answer) s =
      let n = count_recent_failures answer in
      (
        ap (λ o. record { last_rx = s.last_rx; stale = o })
            (stale_in-fleet t.fleet_threshold n s.edge),
        of_heartbeat-fleet t.fleet_threshold n s.edge,
      )

  run_session-watched :
      (t : MonitorTunables R) (es : List (Event R)) (s : Session R)
      → of_heartbeat (run_session t es s).0 ≡ watch_all t.heartbeat_threshold_s es (seen s)
  unfolding run_session watch_all of_heartbeat
  run_session-watched t [] s = refl
  run_session-watched t (e ∷ es) s =
      let r = handle t e s in
      let w = handle-IsWatched t e s in
      of_heartbeat-append r.0 (run_session t es r.1).0
      ∙ rw (w.1) (
          ap (λ l. (watch t.heartbeat_threshold_s e (seen s)).0 ++ l)
            (run_session-watched t es r.1 ∙ ap (watch_all t.heartbeat_threshold_s es) (w.0)))

  -- In a session, whatever messages come and whatever turns the four monitors take in between, the
  -- alerts of the heartbeat monitor are those that it gives by itself on the heartbeats and its own
  -- turns, from the start of the session and with no condition before it; the edge trigger that the
  -- monitors share, and the sessions before, make no difference.
  pub new_session-watched :
      (t : MonitorTunables R) (now : R) (es : List (Event R)) (edge : EdgeTrigger AlertKey)
      → of_heartbeat (run_session t es (new_session t now edge)).0
        ≡ watch_all t.heartbeat_threshold_s es (record { last_rx = now; stale = none })
  unfolding new_session session_start
  new_session-watched t now es edge =
      run_session-watched t es (new_session t now edge)
      ∙ ap (λ o. watch_all t.heartbeat_threshold_s es (record { last_rx = now; stale = o }))
          (lookup-erase heartbeat_stale heartbeat_stale edge)
