-- ===== src/Orchestrator/Boot/Starved.antt =====
-- services/orchestrator/src/orchestrator/main.py: the turns of the executor behind a pending row whose
-- schedule does not validate.
use battery_lab_sim.Prelude.{
  ℕ, ◌≡◌, refl, ap, true, String, String_eq, List, [], ◌∷◌, ◌++◌, All, All-append,
}
use battery_lab_sim.Prelude.Float.{Float}
use battery_lab_sim.Prelude.Dict.{lookup}
use battery_lab_sim.Schedule.{Schedule}
use battery_lab_sim.Orchestrator.Client.{Write}
use battery_lab_sim.Orchestrator.State.{pending, Env, Result, ok, raise, validation_error}
use battery_lab_sim.Orchestrator.Build.{ExperimentRow}
use battery_lab_sim.Orchestrator.Sweep.{is_known}
use battery_lab_sim.Orchestrator.Bench.{Bench, status_or, executor_turn}
use battery_lab_sim.Orchestrator.Bench.Blocked.{IsBlocked, executor_turn-IsBlocked}
use battery_lab_sim.Orchestrator.Boot.{ExecutorTurn, next_turns, executor_loop}

-- All rows that are inserted between the turns are of one chassis.
abbrev pub AllOf : ℕ → List ExecutorTurn → Type 0
AllOf c ts = All (λ t. All (λ r. r.chassis_id ≡ c) t.new_rows) ts

module _ {R : Type 0} ⦃fl : Float R⦄ (env : Env R) (schedules : String → Result (Schedule R))
    (known : List ℕ) (bad : ExperimentRow) where
  insert_rows-IsBlocked :
      (writes : List (ℕ × Write)) (new_rows : List ExperimentRow) (b : Bench R)
      → All (λ r. r.chassis_id ≡ bad.chassis_id) new_rows
      → IsBlocked bad writes b
      → IsBlocked bad writes (record b { rows = b.rows ++ new_rows })
  insert_rows-IsBlocked writes new_rows b n h = (
    h.0,
    h.1,
    h.2,
    (
      h.3.0 ++ new_rows,
      ap (λ rs. rs ++ new_rows) h.3.1,
      All-append (λ r. r.chassis_id ≡ bad.chassis_id) h.3.0 new_rows h.3.2 n,
    ),
  )

  next_turns-IsBlocked :
      (writes : List (ℕ × Write)) (loop : Bench R → Result (Unit {0}) × Bench R)
      (r : Result (Unit {0}) × Bench R)
      → ((c : Bench R) → IsBlocked bad writes c → IsBlocked bad writes (loop c).1)
      → IsBlocked bad writes r.1
      → IsBlocked bad writes (next_turns loop r).1
  next_turns-IsBlocked writes loop (ok x, b) k h = k b h
  next_turns-IsBlocked writes loop (raise e, b) k h = h

  executor_loop-IsBlocked :
      (writes : List (ℕ × Write)) (ts : List ExecutorTurn) (b : Bench R)
      → is_known known bad.chassis_id ≡ true
      → schedules bad.schedule_id ≡ raise validation_error
      → AllOf bad.chassis_id ts
      → IsBlocked bad writes b
      → IsBlocked bad writes (executor_loop env schedules known ts b).1
  unfolding executor_loop
  executor_loop-IsBlocked writes [] b hk hs n h = h
  executor_loop-IsBlocked writes (t ∷ ts) b hk hs n h =
      next_turns-IsBlocked writes (executor_loop env schedules known ts)
        (executor_turn env schedules known t.kickoff_order t.tick_order
          (record b { rows = b.rows ++ t.new_rows }))
        (λ c k. executor_loop-IsBlocked writes ts c hk hs n.1 k)
        (executor_turn-IsBlocked env schedules known bad writes t.kickoff_order t.tick_order
          (record b { rows = b.rows ++ t.new_rows }) hk hs
          (insert_rows-IsBlocked writes t.new_rows b n.0 h))

  -- If nothing is tracked, the first row of the table is pending, its chassis is connected, its schedule
  -- does not validate, and all other rows, also those that come later, are of the same chassis, then no
  -- turn of the executor tracks an experiment or writes to a cycler, whatever fails.
  pub executor_loop-starves :
      (rest : List ExperimentRow) (ts : List ExecutorTurn) (b : Bench R)
      → b.experiments ≡ []
      → b.rows ≡ bad ∷ rest
      → status_or bad.status (lookup bad.id b.state.statuses) ≡ pending
      → is_known known bad.chassis_id ≡ true
      → schedules bad.schedule_id ≡ raise validation_error
      → All (λ r. r.chassis_id ≡ bad.chassis_id) rest
      → AllOf bad.chassis_id ts
      → ((executor_loop env schedules known ts b).1.experiments ≡ [])
        × ((executor_loop env schedules known ts b).1.state.writes ≡ b.state.writes)
  executor_loop-starves rest ts b he hr hp hk hs ha n =
      let done =
        executor_loop-IsBlocked b.state.writes ts b hk hs n (he, refl, hp, (rest, hr, ha)) in
      (done.0, done.1)
