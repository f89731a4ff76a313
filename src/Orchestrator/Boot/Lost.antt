-- ===== src/Orchestrator/Boot/Lost.antt =====
-- services/orchestrator/src/orchestrator/main.py: a running row at which the resume of its chassis raises.
use battery_lab_sim.Prelude.{
  ℕ, ◌≡◌, ◌≢◌, refl, sym, ap, subst, ◌∙◌, ◌⊎◌, inl, inr, String, true, Option, none, some, List, [],
  ◌∷◌, ◌++◌, All, Option-cases,
}
use battery_lab_sim.Prelude.Float.{Float}
use battery_lab_sim.Schedule.{Schedule}
use battery_lab_sim.Orchestrator.State.{State, Env, Result, ok, raise, validation_error}
use battery_lab_sim.Orchestrator.Build.{ExperimentRow, is_running, build_from, build_experiment}
use battery_lab_sim.Orchestrator.Resume.{check_chassis_reachable, resume_record}
use battery_lab_sim.Orchestrator.Sweep.{is_known, resume_groups}
use battery_lab_sim.Orchestrator.Sweep.Groups.{IsOfIfKept, kept_of, group-single}
use battery_lab_sim.Orchestrator.Gather.{
  Task, tasks_of, after_visit, visit_next, advance_task, gather,
}
use battery_lab_sim.Orchestrator.Gather.Ends.{HasEnded, gather-Both, gather-HasEnded}
use battery_lab_sim.Orchestrator.Bench.{Bench}
use battery_lab_sim.Orchestrator.Boot.{Entry, merge, resume_row, resume_rows}

-- A coroutine that has the item still to come, or has raised.
abbrev IsDoomed : {A B : Type 0} → A → List A → Task A B → Type 0
IsDoomed {A} bad post t = ((pre : List A) × (t.items ≡ pre ++ bad ∷ post)) ⊎ (t.raised ≢ none)

module _ {A B S : Type 0} where
  after_visit-IsDoomed :
      (bad : A) (post pre : List A) (t : Task A B) (r : Result (Option B) × S)
      → IsDoomed bad post (after_visit (pre ++ bad ∷ post) t r).0
  after_visit-IsDoomed bad post pre t (ok none, s) = inl (pre, refl)
  after_visit-IsDoomed bad post pre t (ok (some b), s) = inl (pre, refl)
  after_visit-IsDoomed bad post pre t (raise e, s) = inr (λ k. cc)

  after_visit-raised :
      (rest : List A) (t : Task A B) (r : Result (Option B) × S)
      → t.raised ≢ none
      → (after_visit rest t r).0.raised ≢ none
  after_visit-raised rest t (ok none, s) h = h
  after_visit-raised rest t (ok (some b), s) h = h
  after_visit-raised rest t (raise e, s) h = λ k. cc

append-ne-nil : {A : Type 0} (xs : List A) (y : A) (ys : List A) → xs ++ y ∷ ys ≢ []
append-ne-nil [] y ys e = cc
append-ne-nil (x ∷ xs) y ys e = cc

module _ {A B : Type 0} where
  ended-raised :
      (bad : A) (post : List A) (t : Task A B) → IsDoomed bad post t → HasEnded t → t.raised ≢ none
  ended-raised bad post t (inl (pre, k)) e = absurd (append-ne-nil pre bad post (sym k ∙ e))
  ended-raised bad post t (inr h) e = h

  All-ended-raised :
      (bad : A) (post : List A) (ts : List (Task A B))
      → All (IsDoomed bad post) ts
      → All HasEnded ts
      → All (λ t. t.raised ≢ none) ts
  All-ended-raised bad post [] h e = tt
  All-ended-raised bad post (t ∷ ts) h e =
      (ended-raised bad post t h.0 e.0, All-ended-raised bad post ts h.1 e.1)

module _ {A B S : Type 0} (visit : A → S → Result (Option B) × S) (bad : A)
    (always : (rest : List A) (t : Task A B) (s : S)
      → (after_visit rest t (visit bad s)).0.raised ≢ none) where
  visit_next-IsDoomed :
      (post items : List A) (t : Task A B) (s : S)
      → t.items ≡ items
      → IsDoomed bad post t
      → IsDoomed bad post (visit_next visit items t s).0
  unfolding visit_next
  visit_next-IsDoomed post [] t s e h = h
  visit_next-IsDoomed post (a ∷ rest) t s e (inr h) = inr (after_visit-raised rest t (visit a s) h)
  visit_next-IsDoomed post (a ∷ rest) t s e (inl ([], k)) =
      let same : bad ≡ a = cc in
      inr (subst (λ z. (after_visit rest t (visit z s)).0.raised ≢ none) same (always rest t s))
  visit_next-IsDoomed post (a ∷ rest) t s e (inl (p ∷ pre, k)) =
      let same : pre ++ bad ∷ post ≡ rest = cc in
      subst (λ l. IsDoomed bad post (after_visit l t (visit a s)).0) same
        (after_visit-IsDoomed bad post pre t (visit a s))

  -- The coroutine of a list with an item at which every visit raises has raised at the end.
  gather-raised :
      (order : List ℕ) (c : ℕ) (pre post : List A) (s : S)
      → All
          (λ t. t.raised ≢ none)
          (gather visit order
            (record { chassis = c; items = pre ++ bad ∷ post; results = []; raised = none } ∷ [])
            s).0
  unfolding advance_task
  gather-raised order c pre post s =
      let ts =
        record { chassis = c; items = pre ++ bad ∷ post; results = []; raised = none } ∷ [] in
      let done =
        gather-Both visit (IsDoomed bad post) (λ s. Unit {0})
          (λ t s h k. (visit_next-IsDoomed post t.items t s refl h, tt)) order ts s
          (inl (pre, refl), tt) tt in
      All-ended-raised bad post (gather visit order ts s).0 done.0
        (gather-HasEnded visit order ts s)

module _ {R : Type 0} ⦃fl : Float R⦄ (env : Env R) (schedules : String → Result (Schedule R))
    (known : List ℕ) where
  resume_row-invalid :
      (row : ExperimentRow) (s : State R)
      → is_known known row.chassis_id ≡ true
      → schedules row.schedule_id ≡ raise validation_error
      → resume_row env schedules known row s ≡ (raise validation_error, s)
  unfolding resume_row resume_record check_chassis_reachable build_experiment build_from
  resume_row-invalid row s hk hs = rw (hk, hs) refl

  merge-raised :
      (ts : List (Task ExperimentRow (Entry R))) (out : List (Entry R))
      → All (λ t. t.raised ≢ none) ts
      → merge ts out ≡ out
  unfolding merge
  merge-raised [] out h = refl
  merge-raised (t ∷ ts) out h = elim (Option-cases t.raised) [
    | inl e ↦ absurd (h.0 e)
    | inr (e, k) ↦ rw k (merge-raised ts out h.1)
  ]

  -- If all rows that were running are of one connected chassis, and the schedule of one of them does not
  -- validate, then the resume tracks none of them, in whatever order and whatever else fails: those that
  -- were taken up before that row are dropped too. The table may hold pending rows of any chassis.
  pub resume_rows-loses :
      (order : List ℕ) (bad : ExperimentRow) (pre post : List ExperimentRow) (b : Bench R)
      → is_running bad.status ≡ true
      → All
          (IsOfIfKept (λ row. is_running row.status) (λ row. row.chassis_id) bad.chassis_id)
          (pre ++ bad ∷ post)
      → is_known known bad.chassis_id ≡ true
      → schedules bad.schedule_id ≡ raise validation_error
      → (resume_rows env schedules known order (pre ++ bad ∷ post) b).experiments ≡ []
  unfolding resume_rows resume_groups
  resume_rows-loses order bad pre post b was h hk hs =
      ap
        (λ groups.
          merge (gather (resume_row env schedules known) order (tasks_of groups) b.state).0 [])
        (group-single (λ row. is_running row.status) (λ row. row.chassis_id) bad.chassis_id pre bad
          post h was)
      ∙ merge-raised _ [] (
          gather-raised (resume_row env schedules known) bad
            (λ rest t s. rw (resume_row-invalid bad s hk hs) (λ k. cc)) order bad.chassis_id
            (kept_of (λ row. is_running row.status) (λ row. row.chassis_id) bad.chassis_id pre)
            (kept_of (λ row. is_running row.status) (λ row. row.chassis_id) bad.chassis_id post)
            b.state)
