-- ===== src/Orchestrator/Bench/Blocked.antt =====
-- services/orchestrator/src/orchestrator/main.py: a pending row whose schedule does not validate, first
-- in the table. `_build_experiment` catches `ScheduleError` and no `ValidationError`.
use battery_lab_sim.Prelude.{
  ℕ, ℕ_eq, ◌≡◌, refl, ap, ◌∙◌, ◌⊎◌, inl, inr, String, String_eq, true, none, List, [], ◌∷◌, All,
  Bool-cases, ◌+◌, arith,
}
use battery_lab_sim.Prelude.Float.{Float}
use battery_lab_sim.Prelude.Dict.{lookup, keys}
use battery_lab_sim.Schedule.{Schedule}
use battery_lab_sim.Orchestrator.Client.{Write}
use battery_lab_sim.Orchestrator.State.{
  pending, State, Env, Result, ok, raise, validation_error, Experiment,
}
use battery_lab_sim.Orchestrator.Tables.{db}
use battery_lab_sim.Orchestrator.Build.{ExperimentRow, build_from, build_experiment}
use battery_lab_sim.Orchestrator.Resume.{check_chassis_reachable}
use battery_lab_sim.Orchestrator.Kickoff.{kickoff_record, poll_pending}
use battery_lab_sim.Orchestrator.Sweep.{group, is_known, is_tickable}
use battery_lab_sim.Orchestrator.Sweep.Groups.{IsOf, group-onto-All}
use battery_lab_sim.Orchestrator.Gather.{Task, tasks_of, advance_task, visit_next, gather}
use battery_lab_sim.Orchestrator.Gather.Ends.{gather-Both}
use battery_lab_sim.Orchestrator.Bench.{
  Bench, status_or, current_row, current_rows, after_sweep, kickoff_row, kickoff_pending,
  tick_tracked, tick_running, reap, after_poll, executor_turn,
}

All-IsOf :
    (c : ℕ) (rows : List ExperimentRow)
    → All (λ r. r.chassis_id ≡ c) rows
    → All (IsOf (λ r. true) (λ r. r.chassis_id) c) rows
All-IsOf c [] h = tt
All-IsOf c (r ∷ rows) h = ((refl, h.0), All-IsOf c rows h.1)

module _ {R : Type 0} where
  -- What a sweep leaves that kicks off nothing.
  abbrev Untouched : Bench R → Bench R → Type 0
  Untouched b c = (c.state ≡ b.state) × (c.experiments ≡ b.experiments) × (c.rows ≡ b.rows)

  -- The row `bad` is the first of the table and not written to, all others are of its chassis, nothing
  -- is tracked, and no write went out.
  abbrev pub IsBlocked : ExperimentRow → List (ℕ × Write) → Bench R → Type 0
  IsBlocked bad writes b =
      (b.experiments ≡ [])
      × (b.state.writes ≡ writes)
      × (status_or bad.status (lookup bad.id b.state.statuses) ≡ pending)
      × ((rest : List ExperimentRow) × (b.rows ≡ bad ∷ rest)
          × All (λ r. r.chassis_id ≡ bad.chassis_id) rest)

  Untouched-IsBlocked :
      (bad : ExperimentRow) (writes : List (ℕ × Write)) (b c : Bench R)
      → Untouched b c
      → IsBlocked bad writes b
      → IsBlocked bad writes c
  Untouched-IsBlocked bad writes b c u h = (
    u.1 ∙ h.0,
    ap (λ (s : State R). s.writes) u.0 ∙ h.1,
    ap (λ (s : State R). status_or bad.status (lookup bad.id s.statuses)) u.0 ∙ h.2,
    (h.3.0, u.2 ∙ h.3.1, h.3.2),
  )

module _ {R : Type 0} ⦃fl : Float R⦄ (env : Env R) (schedules : String → Result (Schedule R))
    (known : List ℕ) where
  kickoff_row-invalid :
      (row : ExperimentRow) (b : Bench R)
      → is_known known row.chassis_id ≡ true
      → schedules row.schedule_id ≡ raise validation_error
      → kickoff_row env schedules known row b ≡ (raise validation_error, b)
  unfolding kickoff_row kickoff_record check_chassis_reachable build_experiment build_from
  kickoff_row-invalid row b hk hs = rw (hk, hs) refl

  -- A coroutine that is at the row, or has ended.
  abbrev IsAt : ExperimentRow → List ExperimentRow → Task ExperimentRow (Unit {0}) → Type 0
  IsAt row rest t = (t.items ≡ row ∷ rest) ⊎ (t.items ≡ [])

  advance_task-IsAt :
      (row : ExperimentRow) (rest : List ExperimentRow) (b : Bench R)
      → is_known known row.chassis_id ≡ true
      → schedules row.schedule_id ≡ raise validation_error
      → (t : Task ExperimentRow (Unit {0})) (s : Bench R) → IsAt row rest t
      → s ≡ b
      → IsAt row rest (advance_task (kickoff_row env schedules known) t s).0
        × ((advance_task (kickoff_row env schedules known) t s).1 ≡ b)
  unfolding advance_task visit_next
  advance_task-IsAt row rest b hk hs t s (inl e) k =
      rw (e, kickoff_row-invalid row s hk hs) (inr refl, k)
  advance_task-IsAt row rest b hk hs t s (inr e) k = rw e (inr refl, k)

  -- A sweep over rows of one connected chassis, of which the first does not validate.
  kickoff_pending-invalid :
      (row : ExperimentRow) (rest : List ExperimentRow) (order : List ℕ) (b : Bench R)
      → is_known known row.chassis_id ≡ true
      → schedules row.schedule_id ≡ raise validation_error
      → All (λ r. r.chassis_id ≡ row.chassis_id) rest
      → Untouched b (kickoff_pending env schedules known order (row ∷ rest) b)
  unfolding kickoff_pending
  kickoff_pending-invalid row rest order b hk hs h =
      let done =
        gather-Both (kickoff_row env schedules known) (IsAt row rest) (λ s. s ≡ b)
          (advance_task-IsAt row rest b hk hs) order
          (record { chassis = row.chassis_id; items = row ∷ rest; results = []; raised = none }
            ∷ [])
          b (inl refl, tt) refl in
      rw
        (group-onto-All (λ r. true) (λ r. r.chassis_id) row.chassis_id (row ∷ []) rest
          (All-IsOf row.chassis_id rest h))
        (
          ap (λ (z : Bench R). z.state) done.1,
          ap (λ (z : Bench R). z.experiments) done.1,
          ap (λ (z : Bench R). z.rows) done.1,
        )

  -- With nothing tracked, a tick sweep visits nothing.
  tick_running-nothing :
      (order : List ℕ) (b : Bench R)
      → b.experiments ≡ []
      → Untouched b (tick_running env known order b)
  unfolding tick_running
  tick_running-nothing order b e =
      let done =
        gather-Both (tick_tracked env) (λ t. ⊥) (λ s. s ≡ b) (λ t s h k. absurd h) order [] b tt
          refl in
      let same =
        ap
          (λ (es : List (String × Experiment R)). after_sweep "tick" (
            gather (tick_tracked env) order
              (tasks_of (
                group (λ entry. is_tickable known entry.1) (λ entry. entry.1.chassis_id)
                  (λ entry. entry.0) es []))
              b))
          e in
      (
        ap (λ (z : Bench R). z.state) same ∙ ap (λ (z : Bench R). z.state) done.1,
        ap (λ (z : Bench R). z.experiments) same ∙ ap (λ (z : Bench R). z.experiments) done.1,
        ap (λ (z : Bench R). z.rows) same ∙ ap (λ (z : Bench R). z.rows) done.1,
      )

  poll_pending-first :
      (s : State R) (bad : ExperimentRow) (rest : List ExperimentRow)
      → status_or bad.status (lookup bad.id s.statuses) ≡ pending
      → poll_pending [] (current_rows s (bad ∷ rest))
        ≡ current_row s bad ∷ poll_pending [] (current_rows s rest)
  unfolding poll_pending current_rows
  poll_pending-first s bad rest h = rw h refl

  poll_pending-All :
      (s : State R) (c : ℕ) (rows : List ExperimentRow)
      → All (λ r. r.chassis_id ≡ c) rows
      → All (λ r. r.chassis_id ≡ c) (poll_pending [] (current_rows s rows))
  unfolding poll_pending current_rows
  poll_pending-All s c [] h = tt
  poll_pending-All s c (row ∷ rows) h = ground (arith, poll_pending-All s c rows h.1)

  -- From the rows that the poll found to the end of the turn.
  abbrev rest_of_turn : List ℕ → List ℕ → List ExperimentRow → Bench R → Bench R
  rest_of_turn ko to new_rows b =
      let ticked = tick_running env known to (kickoff_pending env schedules known ko new_rows b) in
      record ticked { experiments = reap ticked.experiments }

  rest_of_turn-IsBlocked :
      (bad : ExperimentRow) (writes : List (ℕ × Write)) (ko to : List ℕ) (row : ExperimentRow)
      (rest : List ExperimentRow) (b : Bench R)
      → is_known known row.chassis_id ≡ true
      → schedules row.schedule_id ≡ raise validation_error
      → All (λ r. r.chassis_id ≡ row.chassis_id) rest
      → IsBlocked bad writes b
      → IsBlocked bad writes (rest_of_turn ko to (row ∷ rest) b)
  unfolding reap
  rest_of_turn-IsBlocked bad writes ko to row rest b hk hs hr h =
      let kicked = kickoff_pending env schedules known ko (row ∷ rest) b in
      let k =
        Untouched-IsBlocked bad writes b kicked (kickoff_pending-invalid row rest ko b hk hs hr)
          h in
      let t =
        Untouched-IsBlocked bad writes kicked (tick_running env known to kicked)
          (tick_running-nothing to kicked k.0) k in
      (ap reap t.0, t.1, t.2, t.3)

  after_poll-IsBlocked :
      (bad : ExperimentRow) (writes : List (ℕ × Write)) (ko to : List ℕ) (b : Bench R) (calls : ℕ)
      → is_known known bad.chassis_id ≡ true
      → schedules bad.schedule_id ≡ raise validation_error
      → IsBlocked bad writes b
      → IsBlocked bad writes
          (after_poll env schedules known ko to b (ok tt, record b.state { calls = calls })).1
  after_poll-IsBlocked bad writes ko to b calls hk hs h =
      let polled = record b.state { calls = calls } in
      rw (ap keys h.0, ap (current_rows polled) h.3.1, poll_pending-first polled bad h.3.0 h.2)
        (rest_of_turn-IsBlocked bad writes ko to (current_row polled bad)
          (poll_pending [] (current_rows polled h.3.0)) (record b { state = polled }) hk hs
          (poll_pending-All polled bad.chassis_id h.3.0 h.3.2) h)

  pub executor_turn-IsBlocked :
      (bad : ExperimentRow) (writes : List (ℕ × Write)) (ko to : List ℕ) (b : Bench R)
      → is_known known bad.chassis_id ≡ true
      → schedules bad.schedule_id ≡ raise validation_error
      → IsBlocked bad writes b
      → IsBlocked bad writes (executor_turn env schedules known ko to b).1
  unfolding executor_turn db
  executor_turn-IsBlocked bad writes ko to b hk hs h =
      elim (Bool-cases (env.db_fails b.state.calls)) [
        | inl e ↦ rw e h
        | inr e ↦ rw e (after_poll-IsBlocked bad writes ko to b (b.state.calls + 1) hk hs h)
      ]
