-- ===== src/Orchestrator/Executor/Outside.antt =====
-- services/orchestrator/src/orchestrator/executor.py: what an action leaves as it is, whatever fails; and
-- the actions that touch only what is outside: calls, register writes and contexts.
use battery_lab_sim.Prelude.{
  ℕ, ◌≡◌, refl, ◌∙◌, String, Bool, true, false, Option, none, some, List, [], ◌∷◌, ◌++◌, ◌+◌,
  get_elem?, if◌then◌else◌,
}
use battery_lab_sim.Prelude.Float.{Float}
use battery_lab_sim.Models.{ChannelMode}
use battery_lab_sim.Chemistry.{ChemistryParams, get_chemistry}
use battery_lab_sim.Schedule.{Step, step_name, step_to_command}
use battery_lab_sim.Modbus.{channel_base}
use battery_lab_sim.Orchestrator.Client.{Write, decode_channel}
use battery_lab_sim.Orchestrator.State.{
  os_error, Experiment, StepRow, CriticalAlert, CycleEvent, State, Env, Status, pure, Result, ok,
  raise, Exn, Action, or_raise, and_then, ◌>>◌,
}
use battery_lab_sim.Orchestrator.Tables.{
  modbus_read, modbus_write, modbus_writes, now_sim, current_step, publish_context,
}
use battery_lab_sim.Orchestrator.Executor.{
  read_channel, chemistry_of, command, kick, stamp_cycle, command_step, issue_next_step,
}

-- A footprint of the state that the actions leave.
module _ {R F : Type 0} (print : State R → F) where
  abbrev pub Leaves : {A : Type 0} → Action R A → Type 0
  Leaves m = (s : State R) → print (m s).1 ≡ print s

  pub and_then-Leaves :
      {A B : Type 0} (s : State R) (r : Result A × State R) (f : A → Action R B)
      → print r.1 ≡ print s
      → ((a : A) → Leaves (f a))
      → print (and_then r f).1 ≡ print s
  and_then-Leaves s (ok a, t) f h k = k a t ∙ h
  and_then-Leaves s (raise e, t) f h k = h

  pub if-Leaves :
      {A : Type 0} (s : State R) (b : Bool) (r q : Result A × State R)
      → print r.1 ≡ print s
      → print q.1 ≡ print s
      → print (if b then r else q).1 ≡ print s
  if-Leaves s true r q h k = h
  if-Leaves s false r q h k = k

  pub or_raise-Leaves : {A : Type 0} (e : Exn) (o : Option A) → Leaves (or_raise e o)
  or_raise-Leaves e none s = refl
  or_raise-Leaves e (some a) s = refl

-- All that is inside: the experiment, the tables, the alerts and the cycle events.
abbrev pub Inside : Type 0 → Type 0
Inside R =
    Experiment R
    × List (String × Status)
    × List StepRow
    × List CriticalAlert
    × List ℕ
    × List CycleEvent

abbrev pub inside : {R : Type 0} → State R → Inside R
inside s = (s.exp, s.statuses, s.steps, s.alerts, s.alerted_unreachable, s.events)

module _ {R : Type 0} (env : Env R) where
  pub modbus_write-Leaves : (w : Write) → Leaves inside (modbus_write env w)
  unfolding modbus_write
  modbus_write-Leaves w s =
      if-Leaves inside s (env.modbus_fails s.calls)
        (raise os_error, record s { calls = s.calls + 1 })
        (ok tt, record s { calls = s.calls + 1; writes = s.writes ++ (s.exp.chassis_id, w) ∷ [] })
        refl refl

  modbus_writes-Leaves : (ws : List Write) → Leaves inside (modbus_writes env ws)
  unfolding modbus_writes
  modbus_writes-Leaves [] s = refl
  modbus_writes-Leaves (w ∷ ws) s =
      and_then-Leaves inside s (modbus_write env w s) (λ _. modbus_writes env ws)
        (modbus_write-Leaves w s) (λ _. modbus_writes-Leaves ws)

  modbus_read-Leaves : Leaves inside (modbus_read env)
  unfolding modbus_read
  modbus_read-Leaves s =
      if-Leaves inside s (env.modbus_fails s.calls)
        (raise os_error, record s { calls = s.calls + 1 })
        (ok (env.register s.calls), record s { calls = s.calls + 1 }) refl refl

  pub now_sim-Leaves : Leaves inside (now_sim env)
  unfolding now_sim
  now_sim-Leaves s = refl

  pub current_step-Leaves : Leaves inside (current_step env)
  unfolding current_step
  current_step-Leaves s =
      or_raise-Leaves inside _ (get_elem? s.exp.schedule.steps s.exp.step_index) s

module _ {R : Type 0} ⦃fl : Float R⦄ (env : Env R) where
  pub chemistry_of-Leaves : Leaves inside (chemistry_of env)
  unfolding chemistry_of
  chemistry_of-Leaves s = or_raise-Leaves inside _ (get_chemistry s.exp.schedule.chemistry) s

  pub command-Leaves :
      (mode : ChannelMode) (setpoint : R) → Leaves inside (command env mode setpoint)
  unfolding command
  command-Leaves mode setpoint s = modbus_writes-Leaves env _ s

  pub kick-Leaves : Leaves inside (kick env)
  unfolding kick
  kick-Leaves s = modbus_write-Leaves env _ s

  pub stamp_cycle-Leaves : Leaves inside (stamp_cycle env)
  unfolding stamp_cycle
  stamp_cycle-Leaves s = modbus_write-Leaves env _ s

  pub command_step-Leaves :
      (step : Step R) (chem : ChemistryParams R) → Leaves inside (command_step env step chem)
  unfolding command_step
  command_step-Leaves step chem s =
      let wanted = step_to_command step chem.capacity_ah_nominal (some chem.max_charge_c_rate) in
      and_then-Leaves inside s (command env wanted.0 wanted.1 s) (λ _. kick env)
        (command-Leaves wanted.0 wanted.1 s) (λ _. kick-Leaves)

  stamp_if-Leaves : (b : Bool) → Leaves inside (if b then stamp_cycle env else pure tt)
  stamp_if-Leaves true s = stamp_cycle-Leaves s
  stamp_if-Leaves false s = refl

  issue_step-Leaves :
      (b : Bool) (chem : ChemistryParams R) (step : Step R)
      → Leaves inside (do
        if b then stamp_cycle env else pure tt
        publish_context (step_name step)
        command_step env step chem)
  unfolding publish_context
  issue_step-Leaves b chem step s =
      and_then-Leaves inside s ((if b then stamp_cycle env else pure tt) s)
        (λ _. publish_context (step_name step) >> command_step env step chem) (stamp_if-Leaves b s)
        (λ _ t. command_step-Leaves step chem _)

  pub issue_next_step-Leaves : (b : Bool) → Leaves inside (issue_next_step env b)
  unfolding issue_next_step
  issue_next_step-Leaves b s =
      and_then-Leaves inside s (chemistry_of env s) _ (chemistry_of-Leaves s) (λ chem t.
        and_then-Leaves inside t (current_step env t) _ (current_step-Leaves env t)
          (λ step. issue_step-Leaves b chem step))

  pub read_channel-Leaves : Leaves inside (read_channel env)
  unfolding read_channel
  read_channel-Leaves s =
      and_then-Leaves inside s (modbus_read env s)
        (λ answer.
          pure (decode_channel (λ offset. answer (channel_base s.exp.channel_idx + offset))))
        (modbus_read-Leaves env s) (λ answer t. refl)
