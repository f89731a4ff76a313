-- ===== src/Orchestrator/Resume/Drift.antt =====
-- services/orchestrator/src/orchestrator/main.py: the first drift of an experiment raises no alert.
use battery_lab_sim.Prelude.{
  ◌+◌, ◌≡◌, ap, ◌∙◌, Bool, true, false, not, ◌&&◌, Option, none, some, List, Bool-cases,
  Option-cases, inl, inr, if◌then◌else◌, get_elem?,
}
use battery_lab_sim.Prelude.Float.{Float}
use battery_lab_sim.Models.{ChannelMode, mode_beq}
use battery_lab_sim.Orchestrator.State.{
  os_error, postgres_error, value_error, index_error, schedule_error, validation_error, failed,
  State, CriticalAlert, Env, Result, ok, raise, Action, pure, and_then, on_os_error, ◌>>◌,
}
use battery_lab_sim.Orchestrator.Tables.{
  db, now_sim, current_step, insert_named, insert_step_row, mark_status_of, publish_context,
}
use battery_lab_sim.Orchestrator.Executor.{chemistry_of, command, kick}
use battery_lab_sim.Orchestrator.Executor.Frame.{
  Footprint, Same, mark_status_of-Keeps, command-Keeps, kick-Keeps, current_step-Keeps,
  chemistry_of-Keeps, and_then-Same,
}
use battery_lab_sim.Orchestrator.Resume.{
  is_failed, reissue, handle_resume_drift, restart_step, settle_drift, check_drift, resume_built,
}

module _ {R : Type 0} where
  -- The alerts are `a`, and the experiment at hand has had no drift.
  abbrev pub IsFresh : List CriticalAlert → State R → Type 0
  IsFresh a s = (s.alerts ≡ a) × (s.exp.resume_drift_count ≡ 0)

  pub Same-alerts : (s t : State R) → Same s t → t.alerts ≡ s.alerts
  Same-alerts s t e = ap (λ (p : Footprint R). p.5) e

  pub Same-IsFresh : (a : List CriticalAlert) (s t : State R) → Same s t → IsFresh a s → IsFresh a t
  Same-IsFresh a s t e h = (Same-alerts s t e ∙ h.0, ap (λ (p : Footprint R). p.6) e ∙ h.1)

  -- What follows a call, from a property that implies that the alerts are `a`.
  pub and_then-alerts :
      {A B : Type 0} (a : List CriticalAlert) (P : State R → Type 0) (r : Result A × State R)
      (f : A → Action R B)
      → ((s : State R) → P s → s.alerts ≡ a)
      → P r.1
      → ((x : A) (t : State R) → P t → (f x t).1.alerts ≡ a)
      → (and_then r f).1.alerts ≡ a
  and_then-alerts a P (ok x, s) f weak h k = k x s h
  and_then-alerts a P (raise e, s) f weak h k = weak s h

  on_os_error-alerts :
      {A : Type 0} (a : List CriticalAlert) (h : Action R A) (r : Result A × State R)
      → r.1.alerts ≡ a
      → ((t : State R) → t.alerts ≡ a → (h t).1.alerts ≡ a)
      → (on_os_error h r).1.alerts ≡ a
  on_os_error-alerts a h (ok x, s) e k = e
  on_os_error-alerts a h (raise os_error, s) e k = k s e
  on_os_error-alerts a h (raise postgres_error, s) e k = e
  on_os_error-alerts a h (raise value_error, s) e k = e
  on_os_error-alerts a h (raise index_error, s) e k = e
  on_os_error-alerts a h (raise schedule_error, s) e k = e
  on_os_error-alerts a h (raise validation_error, s) e k = e

module _ {R : Type 0} ⦃fl : Float R⦄ (env : Env R) where
  reissue-alerts :
      (a : List CriticalAlert) (mode : ChannelMode) (setpoint : R) (s : State R)
      → s.alerts ≡ a
      → (reissue env mode setpoint s).1.alerts ≡ a
  unfolding reissue
  reissue-alerts a mode setpoint s h =
      on_os_error-alerts a _ ((command env mode setpoint >> kick env) s)
        (Same-alerts s ((command env mode setpoint >> kick env) s).1 (
            and_then-Same s (command env mode setpoint s) (λ _. kick env)
              (command-Keeps env mode setpoint s) (λ _. kick-Keeps env))
          ∙ h)
        (λ t e.
          and_then-alerts a (λ u. u.alerts ≡ a) (mark_status_of env t.exp.id failed t) _ (λ u k. k)
            (Same-alerts t (mark_status_of env t.exp.id failed t).1
                (mark_status_of-Keeps env t.exp.id failed t)
              ∙ e)
            (λ x u k. k))

  handle_resume_drift-alerts :
      (a : List CriticalAlert) (mode : ChannelMode) (setpoint : R) (s : State R)
      → IsFresh a s
      → (handle_resume_drift env mode setpoint s).1.alerts ≡ a
  unfolding handle_resume_drift
  handle_resume_drift-alerts a mode setpoint s h = rw h.1 (
      reissue-alerts a mode setpoint
        (record s { exp = record s.exp { resume_drift_count = 0 + 1 } }) h.0)

  insert_step_row-alerts :
      (a : List CriticalAlert) (s : State R) → s.alerts ≡ a → (insert_step_row env s).1.alerts ≡ a
  unfolding insert_step_row insert_named db current_step
  insert_step_row-alerts a s h =
      elim (Option-cases (get_elem? s.exp.schedule.steps s.exp.step_index)) [
        | inl e ↦ rw e h
        | inr (step, e) ↦ elim (Bool-cases (env.db_fails s.calls)) [
          | inl d ↦ rw (e, d) h
          | inr d ↦ rw (e, d) h
        ]
      ]

  restart_step-alerts :
      (a : List CriticalAlert) (s : State R) → s.alerts ≡ a → (restart_step env s).1.alerts ≡ a
  unfolding restart_step now_sim publish_context
  restart_step-alerts a s h =
      let t : State R = record s {
        calls = s.calls + 1;
        exp = record s.exp { step_started_sim_s = env.now_sim s.calls };
      } in
      and_then-alerts a (λ u. u.alerts ≡ a) (insert_step_row env t) _ (λ u k. k)
        (insert_step_row-alerts a t h)
        (λ x u k.
          and_then-alerts a (λ w. w.alerts ≡ a) (current_step env u) _ (λ w l. l)
            (Same-alerts u (current_step env u).1 (current_step-Keeps env u) ∙ k) (λ step w l. l))

  if-alerts :
      {A : Type 0} (a : List CriticalAlert) (b : Bool) (m n : Action R A) (s : State R)
      → (m s).1.alerts ≡ a
      → (n s).1.alerts ≡ a
      → ((if b then m else n) s).1.alerts ≡ a
  if-alerts a true m n s h k = h
  if-alerts a false m n s h k = k

  settle_drift-alerts :
      (a : List CriticalAlert) (actual : ChannelMode) (wanted : ChannelMode × R) (s : State R)
      → IsFresh a s
      → (settle_drift env actual wanted s).1.alerts ≡ a
  unfolding settle_drift
  settle_drift-alerts a actual wanted s h =
      and_then-alerts a (λ u. u.alerts ≡ a)
        ((if mode_beq actual wanted.0 then pure tt else handle_resume_drift env wanted.0 wanted.1)
          s)
        _ (λ u k. k)
        (if-alerts a (mode_beq actual wanted.0) (pure tt)
          (handle_resume_drift env wanted.0 wanted.1) s h.0
          (handle_resume_drift-alerts a wanted.0 wanted.1 s h))
        (λ x t k.
          if-alerts a (not (mode_beq actual wanted.0) && is_failed t.exp.status) (pure false)
            (restart_step env) t k (restart_step-alerts a t k))

  check_drift-alerts :
      (a : List CriticalAlert) (actual : ChannelMode) (s : State R)
      → IsFresh a s
      → (check_drift env actual s).1.alerts ≡ a
  unfolding check_drift
  check_drift-alerts a actual s h =
      and_then-alerts a (IsFresh a) (chemistry_of env s) _ (λ u k. k.0)
        (Same-IsFresh a s (chemistry_of env s).1 (chemistry_of-Keeps env s) h)
        (λ chem t k.
          and_then-alerts a (IsFresh a) (current_step env t) _ (λ u l. l.0)
            (Same-IsFresh a t (current_step env t).1 (current_step-Keeps env t) k)
            (λ step u l. settle_drift-alerts a actual _ u l))

  pub resume_built-alerts :
      (a : List CriticalAlert) (outcome : Option (ChannelMode × Bool)) (s : State R)
      → IsFresh a s
      → (resume_built env outcome s).1.alerts ≡ a
  unfolding resume_built
  resume_built-alerts a none s h = h.0
  resume_built-alerts a (some (actual, true)) s h =
      and_then-alerts a (λ u. u.alerts ≡ a) (mark_status_of env s.exp.id failed s) _ (λ u k. k)
        (Same-alerts s (mark_status_of env s.exp.id failed s).1
            (mark_status_of-Keeps env s.exp.id failed s)
          ∙ h.0)
        (λ x u k. k)
  resume_built-alerts a (some (actual, false)) s h = check_drift-alerts a actual s h
