-- ===== src/Orchestrator/Resume/Quiet.antt =====
-- services/orchestrator/src/orchestrator/main.py: no alert comes from the resume of an experiment whose
-- chassis is connected.
use battery_lab_sim.Prelude.{
  ℕ, ◌≡◌, refl, ◌∙◌, String, Bool, true, false, Option, none, some, List, Bool-cases, inl, inr,
  ◌==◌, any, if◌then◌else◌, length, leb,
}
use battery_lab_sim.Prelude.Float.{Float}
use battery_lab_sim.Models.{is_error}
use battery_lab_sim.Schedule.{Schedule}
use battery_lab_sim.Orchestrator.State.{
  os_error, postgres_error, value_error, index_error, schedule_error, validation_error, failed,
  completed, Status, Experiment, State, CriticalAlert, Env, Result, ok, raise, Action, pure,
  and_then, on_os_error, ◌>>◌,
}
use battery_lab_sim.Orchestrator.Tables.{db, mark_status_of}
use battery_lab_sim.Orchestrator.Executor.{read_channel}
use battery_lab_sim.Orchestrator.Executor.Frame.{
  Same, Keeps, mark_status_of-Keeps, read_channel-Keeps, and_then-Same,
}
use battery_lab_sim.Orchestrator.Build.{
  ExperimentRow, is_running, load_resume_state, new_experiment, build_running, build_from,
  build_experiment,
}
use battery_lab_sim.Orchestrator.Resume.{
  check_chassis_reachable, read_or_skip, resume_experiment, resume_record,
}
use battery_lab_sim.Orchestrator.Resume.Drift.{
  IsFresh, Same-alerts, Same-IsFresh, and_then-alerts, resume_built-alerts,
}

module _ {R : Type 0} ⦃fl : Float R⦄ (env : Env R) where
  on_os_error-Same :
      {A : Type 0} (s : State R) (x : A) (r : Result A × State R)
      → Same s r.1
      → Same s (on_os_error (pure x) r).1
  on_os_error-Same s x (ok y, t) e = e
  on_os_error-Same s x (raise os_error, t) e = e
  on_os_error-Same s x (raise postgres_error, t) e = e
  on_os_error-Same s x (raise value_error, t) e = e
  on_os_error-Same s x (raise index_error, t) e = e
  on_os_error-Same s x (raise schedule_error, t) e = e
  on_os_error-Same s x (raise validation_error, t) e = e

  read_or_skip-Keeps : Keeps (read_or_skip env)
  unfolding read_or_skip
  read_or_skip-Keeps s = on_os_error-Same s none _ (
      and_then-Same s (read_channel env s)
        (λ snap. pure (some (snap.mode, is_error snap.last_error))) (read_channel-Keeps env s)
        (λ snap t. refl))

  -- What the build of an experiment leaves: the alerts, and no drift in the experiment.
  abbrev IsBuilt : List CriticalAlert → Result (Option (Experiment R)) × State R → Type 0
  IsBuilt a (ok none, s) = s.alerts ≡ a
  IsBuilt a (ok (some exp), s) = (s.alerts ≡ a) × (exp.resume_drift_count ≡ 0)
  IsBuilt a (raise e, s) = s.alerts ≡ a

  and_then-IsBuilt :
      {A : Type 0} (a : List CriticalAlert) (r : Result A × State R)
      (f : A → Action R (Option (Experiment R)))
      → r.1.alerts ≡ a
      → ((x : A) (t : State R) → t.alerts ≡ a → IsBuilt a (f x t))
      → IsBuilt a (and_then r f)
  and_then-IsBuilt a (ok x, s) f h k = k x s h
  and_then-IsBuilt a (raise e, s) f h k = h

  if-IsBuilt :
      (a : List CriticalAlert) (b : Bool) (m n : Action R (Option (Experiment R))) (s : State R)
      → IsBuilt a (m s)
      → IsBuilt a (n s)
      → IsBuilt a ((if b then m else n) s)
  if-IsBuilt a true m n s h k = h
  if-IsBuilt a false m n s h k = k

  mark_status_of-IsBuilt :
      (a : List CriticalAlert) (id : String) (status : Status) (s : State R)
      → s.alerts ≡ a
      → IsBuilt a ((mark_status_of env id status >> pure none) s)
  mark_status_of-IsBuilt a id status s h =
      and_then-IsBuilt a (mark_status_of env id status s) (λ _. pure none)
        (Same-alerts s (mark_status_of env id status s).1 (mark_status_of-Keeps env id status s)
          ∙ h)
        (λ x t k. k)

  load_resume_state-alerts :
      (a : List CriticalAlert) (id : String) (count : ℕ) (s : State R)
      → s.alerts ≡ a
      → (load_resume_state env id count s).1.alerts ≡ a
  unfolding load_resume_state db
  load_resume_state-alerts a id count s h = elim (Bool-cases (env.db_fails s.calls)) [
    | inl e ↦ rw e h
    | inr e ↦ rw e h
  ]

  build_running-IsBuilt :
      (a : List CriticalAlert) (rec : ExperimentRow) (schedule : Schedule R) (s : State R)
      → s.alerts ≡ a
      → IsBuilt a (build_running env rec schedule s)
  unfolding build_running new_experiment
  build_running-IsBuilt a rec schedule s h =
      and_then-IsBuilt a (load_resume_state env rec.id (length schedule.steps) s) _
        (load_resume_state-alerts a rec.id (length schedule.steps) s h)
        (λ position t k.
          if-IsBuilt a (leb schedule.repeat position.0)
            (mark_status_of env rec.id completed >> pure none)
            (pure (some (new_experiment env rec schedule position))) t
            (mark_status_of-IsBuilt a rec.id completed t k) (k, refl))

  build_from-IsBuilt :
      (a : List CriticalAlert) (rec : ExperimentRow) (loaded : Result (Schedule R)) (s : State R)
      → s.alerts ≡ a
      → IsBuilt a (build_from env rec loaded s)
  unfolding build_from new_experiment
  build_from-IsBuilt a rec (raise schedule_error) s h = mark_status_of-IsBuilt a rec.id failed s h
  build_from-IsBuilt a rec (raise os_error) s h = h
  build_from-IsBuilt a rec (raise postgres_error) s h = h
  build_from-IsBuilt a rec (raise value_error) s h = h
  build_from-IsBuilt a rec (raise index_error) s h = h
  build_from-IsBuilt a rec (raise validation_error) s h = h
  build_from-IsBuilt a rec (ok schedule) s h =
      if-IsBuilt a (is_running rec.status) (build_running env rec schedule)
        (pure (some (new_experiment env rec schedule (0, 0)))) s
        (build_running-IsBuilt a rec schedule s h) (h, refl)

  resume_built_experiment-alerts :
      (a : List CriticalAlert) (r : Result (Option (Experiment R)) × State R)
      → IsBuilt a r
      → (and_then r (resume_experiment env)).1.alerts ≡ a
  unfolding resume_experiment
  resume_built_experiment-alerts a (raise e, s) h = h
  resume_built_experiment-alerts a (ok none, s) h = h
  resume_built_experiment-alerts a (ok (some exp), s) h =
      let t : State R = record s { exp = exp } in
      and_then-alerts a (IsFresh a) (read_or_skip env t) _ (λ u k. k.0)
        (Same-IsFresh a t (read_or_skip env t).1 (read_or_skip-Keeps t) h)
        (λ outcome u k. resume_built-alerts env a outcome u k)

  -- The resume of an experiment whose chassis is connected adds no alert, whatever its channel reports,
  -- how often it has drifted before, and whatever calls fail: the critical alert of a persistent drift is
  -- never emitted.
  pub resume_record-silent :
      (schedules : String → Result (Schedule R)) (known : List ℕ) (rec : ExperimentRow)
      (s : State R)
      → any (λ c. c == rec.chassis_id) known ≡ true
      → (resume_record env schedules known rec s).1.alerts ≡ s.alerts
  unfolding resume_record check_chassis_reachable build_experiment
  resume_record-silent schedules known rec s h = rw h (
      resume_built_experiment-alerts s.alerts (build_from env rec (schedules rec.schedule_id) s)
        (build_from-IsBuilt s.alerts rec (schedules rec.schedule_id) s refl))
