-- ===== src/Orchestrator/Bench/Mirror.antt =====
-- services/orchestrator/src/orchestrator/main.py: the tracked experiments and the rows of the table.
use battery_lab_sim.Prelude.{
  ℕ, ◌≡◌, refl, sym, subst, ◌∙◌, [], ◌∷◌, String, String_eq, Bool-cases, inl, inr, Option, none,
  some, List,
}
use battery_lab_sim.Prelude.Float.{Float}
use battery_lab_sim.Prelude.Dict.{lookup, insert, lookup-insert}
use battery_lab_sim.Orchestrator.State.{Experiment, State, Env, running, Result, ok, raise}
use battery_lab_sim.Orchestrator.Kickoff.{tick}
use battery_lab_sim.Orchestrator.Executor.Statuses.{view}
use battery_lab_sim.Orchestrator.Executor.Mirror.{IsMirrored, tick-Mirrors}
use battery_lab_sim.Orchestrator.Gather.{Task, tasks_of, advance_task, visit_next}
use battery_lab_sim.Orchestrator.Gather.Ends.{gather-Both, All-trivial, after_visit-state}
use battery_lab_sim.Orchestrator.Bench.{
  Bench, after_tick, tick_found, tick_tracked, tick_plan, tick_running,
}

module _ {R : Type 0} where
  -- Each tracked experiment stands under its id, and if it runs, its row says so.
  abbrev pub IsTracked : Bench R → Type 0
  IsTracked b =
      (k : String) (e : Experiment R)
      → lookup k b.experiments ≡ some e
      → (e.id ≡ k) × (e.status ≡ running → lookup k b.state.statuses ≡ some running)

module _ {R : Type 0} ⦃fl : Float R⦄ (env : Env R) where
  -- The dict and the table after a tick that was good for its experiment.
  store-IsTracked :
      (key : String) (b : Bench R) (s : State R)
      → IsMirrored key b.state.statuses (view s)
      → IsTracked b
      → IsTracked (record b { state = s; experiments = insert key s.exp b.experiments })
  store-IsTracked key b s m h k e found = elim (Bool-cases (String_eq.beq key k)) [
    | inl own ↦
        let stored : some s.exp ≡ some e =
          sym (lookup-insert key k s.exp b.experiments ∙ rw own refl) ∙ found in
        let here : key ≡ k = (String_eq.beq_iff key k).0 own in
        let same : s.exp ≡ e = cc in
        subst
          (λ (x : Experiment R).
            (x.id ≡ k) × (x.status ≡ running → lookup k s.statuses ≡ some running))
          same (m.0 ∙ here, λ r. subst (λ j. lookup j s.statuses ≡ some running) here (m.2 r))
    | inr other ↦
        let before : lookup k b.experiments ≡ some e =
          sym (lookup-insert key k s.exp b.experiments ∙ rw other refl) ∙ found in
        ((h k e before).0, λ r. m.1 k other ∙ (h k e before).1 r)
  ]

  after_tick-IsTracked :
      (key : String) (b : Bench R) (r : Result (Unit {0}) × State R)
      → IsMirrored key b.state.statuses (view r.1)
      → IsTracked b
      → IsTracked (after_tick env key b r).1
  after_tick-IsTracked key b (ok x, s) m h = store-IsTracked key b s m h
  after_tick-IsTracked key b (raise e, s) m h = store-IsTracked key b s m h

  tick_found-IsTracked :
      (key : String) (b : Bench R) (o : Option (Experiment R))
      → lookup key b.experiments ≡ o
      → IsTracked b
      → IsTracked (tick_found env key b o).1
  tick_found-IsTracked key b none e h = h
  tick_found-IsTracked key b (some exp) e h =
      let own = h key exp e in
      after_tick-IsTracked key b (tick env (record b.state { exp = exp }))
        (tick-Mirrors key b.state.statuses env (record b.state { exp = exp })
          (own.0, λ k other. refl, own.1))
        h

  visit-IsTracked :
      (items : List String) (t : Task String (Unit {0})) (b : Bench R)
      → IsTracked b
      → IsTracked (visit_next (tick_tracked env) items t b).1
  unfolding visit_next tick_tracked
  visit-IsTracked [] t b h = h
  visit-IsTracked (key ∷ rest) t b h =
      after_visit-state IsTracked rest t (tick_found env key b (lookup key b.experiments))
        (tick_found-IsTracked key b (lookup key b.experiments) refl h)

  -- If each tracked experiment stands under its id, and the row of each that runs says so, then that is
  -- so after a tick sweep, whatever calls fail and in whatever order the chassis take their turns.
  pub tick_running-IsTracked :
      (known order : List ℕ) (b : Bench R)
      → IsTracked b
      → IsTracked (tick_running env known order b)
  unfolding tick_running advance_task
  tick_running-IsTracked known order b h =
      (gather-Both (tick_tracked env) (λ t. Unit {0}) IsTracked
        (λ t s u k. (tt, visit-IsTracked t.items t s k)) order (tasks_of (tick_plan known b)) b
        (All-trivial (tasks_of (tick_plan known b))) h).1
