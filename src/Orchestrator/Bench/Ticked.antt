-- ===== src/Orchestrator/Bench/Ticked.antt =====
-- services/orchestrator/src/orchestrator/main.py: what one visit of a tick sweep does.
use battery_lab_sim.Prelude.{
  ℕ, ◌≡◌, ◌≢◌, refl, ap, ◌∙◌, ◌⊎◌, Bool, Bool-cases, inl, inr, String, String_eq, ℕ_eq, Option,
  some, List, [], ◌∷◌, ◌++◌, All, All-append,
}
use battery_lab_sim.Prelude.Float.{Float}
use battery_lab_sim.Prelude.Dict.{lookup, insert, lookup-insert}
use battery_lab_sim.Orchestrator.State.{
  Experiment, State, Env, Result, ok, raise, os_error, postgres_error, value_error, index_error,
  schedule_error, validation_error, on_os_error, pure,
}
use battery_lab_sim.Orchestrator.Executor.{step_one_tick}
use battery_lab_sim.Orchestrator.Kickoff.{tick}
use battery_lab_sim.Orchestrator.Sweep.{items_or_empty, group}
use battery_lab_sim.Orchestrator.Gather.{
  Task, tasks_of, after_visit, visit_next, advance_task, gather,
}
use battery_lab_sim.Orchestrator.Gather.Ends.{gather-Both}
use battery_lab_sim.Orchestrator.Gather.Visits.{Visit, as_result, recorded}
use battery_lab_sim.Orchestrator.Bench.{Bench, after_tick, tick_tracked, tick_plan}

All-imp :
    {A : Type 0} {P Q : A → Type 0} (xs : List A) → ((a : A) → P a → Q a) → All P xs → All Q xs
All-imp [] f h = tt
All-imp (x ∷ xs) f h = (f x h.0, All-imp xs f h.1)

-- All items of all groups have a property.
module _ {B : Type 0} (P : B → Type 0) where
  AllGroups : List (ℕ × List B) → Type 0
  AllGroups groups = All (λ g. All P g.1) groups

  lookup-All :
      (c : ℕ) (groups : List (ℕ × List B))
      → AllGroups groups
      → All P (items_or_empty (lookup c groups))
  unfolding lookup AllGroups
  lookup-All c [] h = tt
  lookup-All c ((k, items) ∷ groups) h = elim (Bool-cases (ℕ_eq.beq k c)) [
    | inl own ↦ rw own h.0
    | inr other ↦ rw other (lookup-All c groups h.1)
  ]

  insert-All :
      (c : ℕ) (items : List B) (groups : List (ℕ × List B))
      → All P items
      → AllGroups groups
      → AllGroups (insert c items groups)
  unfolding insert AllGroups
  insert-All c items [] hi h = (hi, tt)
  insert-All c items ((k, others) ∷ groups) hi h = elim (Bool-cases (ℕ_eq.beq k c)) [
    | inl own ↦ rw own (hi, h.1)
    | inr other ↦ rw other (h.0, insert-All c items groups hi h.1)
  ]

  group-All :
      {A : Type 0} (keep : A → Bool) (chassis : A → ℕ) (item : A → B) (as' : List A)
      (groups : List (ℕ × List B))
      → All (λ a. P (item a)) as'
      → AllGroups groups
      → AllGroups (group keep chassis item as' groups)
  unfolding group
  group-All keep chassis item [] groups ha h = h
  group-All keep chassis item (a ∷ as') groups ha h =
      let c = chassis a in
      let items = items_or_empty (lookup c groups) ++ item a ∷ [] in
      let grown =
        insert-All c items groups
          (All-append P (items_or_empty (lookup c groups)) (item a ∷ []) (lookup-All c groups h)
            (ha.0, tt))
          h in
      elim (Bool-cases (keep a)) [
        | inl kept ↦ rw kept (group-All keep chassis item as' (insert c items groups) ha.1 grown)
        | inr left ↦ rw left (group-All keep chassis item as' groups ha.1 h)
      ]

module _ {V : Type 0} where
  -- The dict has an entry under the key.
  abbrev HasKey : List (String × V) → String → Type 0
  HasKey d k = (v : V) × (lookup k d ≡ some v)

  HasKey-cons :
      (d : List (String × V)) (e : String × V) (k : String) → HasKey d k → HasKey (e ∷ d) k
  unfolding lookup
  HasKey-cons d (j, w) k h = elim (Bool-cases (String_eq.beq j k)) [
    | inl own ↦ (w, rw own refl)
    | inr other ↦ (h.0, rw other h.1)
  ]

  own_keys : (d : List (String × V)) → All (λ e. HasKey d e.0) d
  unfolding lookup
  own_keys [] = tt
  own_keys ((k, v) ∷ d) = (
    (v, rw ((String_eq.beq_iff k k).1 refl) refl),
    All-imp d (λ e h. HasKey-cons d (k, v) e.0 h) (own_keys d),
  )

  HasKey-insert :
      (d : List (String × V)) (j : String) (w : V) (k : String)
      → HasKey d k
      → HasKey (insert j w d) k
  HasKey-insert d j w k h = elim (Bool-cases (String_eq.beq j k)) [
    | inl own ↦ (w, lookup-insert j k w d ∙ rw own refl)
    | inr other ↦ (h.0, lookup-insert j k w d ∙ rw other h.1)
  ]

module _ {R : Type 0} ⦃fl : Float R⦄ (env : Env R) where
  -- The visit ran `step_one_tick` once, on the experiment that stood under the key in the state before it;
  -- that returned or raised an `OSError`; and the experiment and the state are as it left them.
  abbrev pub IsTicked : Visit String (Bench R) → Type 0
  IsTicked v =
      (exp : Experiment R) × (lookup v.item v.before.experiments ≡ some exp)
      × (let r = step_one_tick env (record v.before.state { exp = exp }) in
          ((r.0 ≡ ok tt) ⊎ (r.0 ≡ raise os_error))
          × (v.after.state ≡ r.1)
          × (lookup v.item v.after.experiments ≡ some r.1.exp))

  -- All visits of the coroutine ticked, and no `OSError` ended it.
  abbrev pub IsTicking : Task String (Visit String (Bench R)) → Type 0
  IsTicking t = All IsTicked t.results × (t.raised ≢ some os_error)

  module _ (Held : String → Type 0) where
    -- What is left has keys of the dict.
    abbrev Goes : Task String (Visit String (Bench R)) → Type 0
    Goes t = All Held t.items × IsTicking t

    abbrev Holds : Bench R → Type 0
    Holds b = (k : String) → Held k → HasKey b.experiments k

    abbrev ticked :
        String → Bench R → Result (Unit {0}) × State R → Result (Option (Unit {0})) × Bench R
    ticked key b r = after_tick env key b (on_os_error (pure tt) r)

    stored-Holds :
        (key : String) (b : Bench R) (s : State R)
        → Holds b
        → Holds (record b { state = s; experiments = insert key s.exp b.experiments })
    stored-Holds key b s h k held = HasKey-insert b.experiments key s.exp k (h k held)

    returned-Goes :
        (key : String) (b : Bench R) (exp : Experiment R) (rest : List String)
        (t : Task String (Visit String (Bench R))) (s : State R) (res : Result (Unit {0}))
        → lookup key b.experiments ≡ some exp
        → (res, s) ≡ step_one_tick env (record b.state { exp = exp })
        → (res ≡ ok tt) ⊎ (res ≡ raise os_error)
        → All Held rest
        → IsTicking t
        → let b' = record b { state = s; experiments = insert key s.exp b.experiments } in
          Goes (record t {
            items = rest;
            results = t.results ++ (record { item = key; before = b; after = b' }) ∷ [];
          })
    returned-Goes key b exp rest t s res found e fine held h =
        let b' : Bench R = record b { state = s; experiments = insert key s.exp b.experiments } in
        let visit : Visit String (Bench R) = record { item = key; before = b; after = b' } in
        let stored =
          lookup-insert key key s.exp b.experiments
          ∙ rw ((String_eq.beq_iff key key).1 refl) (ap (λ z. some (z.1.exp)) e) in
        let one : IsTicked visit = (exp, found, (rw (← e) fine, ap (λ z. z.1) e, stored)) in
        (held, (All-append IsTicked t.results (visit ∷ []) h.0 (one, tt), h.1))

    stepped-Goes :
        (key : String) (b : Bench R) (exp : Experiment R) (rest : List String)
        (t : Task String (Visit String (Bench R))) (r : Result (Unit {0}) × State R)
        → lookup key b.experiments ≡ some exp
        → r ≡ step_one_tick env (record b.state { exp = exp })
        → All Held rest
        → IsTicking t
        → Holds b
        → Goes (after_visit rest t (as_result key b (ticked key b r))).0
          × Holds (after_visit rest t (as_result key b (ticked key b r))).1
    stepped-Goes key b exp rest t (ok tt, s) found e held h k =
        (returned-Goes key b exp rest t s (ok tt) found e (inl refl) held h, stored-Holds key b s k)
    stepped-Goes key b exp rest t (raise os_error, s) found e held h k = (
      returned-Goes key b exp rest t s (raise os_error) found e (inr refl) held h,
      stored-Holds key b s k,
    )
    stepped-Goes key b exp rest t (raise postgres_error, s) found e held h k =
        ((tt, (h.0, λ x. cc)), stored-Holds key b s k)
    stepped-Goes key b exp rest t (raise value_error, s) found e held h k =
        ((tt, (h.0, λ x. cc)), stored-Holds key b s k)
    stepped-Goes key b exp rest t (raise index_error, s) found e held h k =
        ((tt, (h.0, λ x. cc)), stored-Holds key b s k)
    stepped-Goes key b exp rest t (raise schedule_error, s) found e held h k =
        ((tt, (h.0, λ x. cc)), stored-Holds key b s k)
    stepped-Goes key b exp rest t (raise validation_error, s) found e held h k =
        ((tt, (h.0, λ x. cc)), stored-Holds key b s k)

    visit_next-Goes :
        (items : List String) (t : Task String (Visit String (Bench R))) (b : Bench R)
        → All Held items
        → Goes t
        → Holds b
        → Goes (visit_next (recorded (tick_tracked env)) items t b).0
          × Holds (visit_next (recorded (tick_tracked env)) items t b).1
    unfolding visit_next tick_tracked tick
    visit_next-Goes [] t b held h k = (h, k)
    visit_next-Goes (key ∷ rest) t b held h k =
        let found = k key held.0 in
        rw found.1 (
          stepped-Goes key b found.0 rest t (step_one_tick env (record b.state { exp = found.0 }))
            found.1 refl held.1 h.1 k)

    new-Goes :
        (groups : List (ℕ × List String)) → AllGroups Held groups → All Goes (tasks_of groups)
    unfolding tasks_of AllGroups
    new-Goes [] h = tt
    new-Goes (g ∷ groups) h = ((h.0, (tt, λ x. cc)), new-Goes groups h.1)

  -- In a sweep over the plan of a bench, every visit ticks, and no `OSError` ends a chassis' part.
  pub gather-IsTicking :
      (known order : List ℕ) (b : Bench R)
      → All IsTicking
          (gather (recorded (tick_tracked env)) order (tasks_of (tick_plan known b)) b).0
  unfolding tick_plan advance_task AllGroups
  gather-IsTicking known order b =
      let Held = HasKey b.experiments in
      let plan = tick_plan known b in
      let fine : AllGroups Held plan =
        group-All Held _ _ _ b.experiments [] (own_keys b.experiments) tt in
      let done =
        gather-Both (recorded (tick_tracked env)) (Goes Held) (Holds Held)
          (λ t s h k. visit_next-Goes Held t.items t s h.0 h k) order (tasks_of plan) b
          (new-Goes Held plan fine) (λ k held. held) in
      All-imp (gather (recorded (tick_tracked env)) order (tasks_of plan) b).0 (λ t h. h.1) done.0
