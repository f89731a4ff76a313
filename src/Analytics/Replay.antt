-- ===== src/Analytics/Replay.antt =====
-- An event that is processed again leaves the features that one run gives.
use battery_lab_sim.Prelude.{
  ℕ, ◌≤◌, ◌<◌, ◌≡◌, ◌⊎◌, refl, ap, sym, ◌∙◌, String, true, false, Option, none, some, List, [], ◌∷◌,
  arith, Option-cases, inl, inr, ltb, Eq,
}
use battery_lab_sim.Prelude.Float.{Float}
use battery_lab_sim.Prelude.Dict.{insert}
use battery_lab_sim.Prelude.Attempt.{Failure}
use battery_lab_sim.Analytics.{Numerics}
use battery_lab_sim.Analytics.Pipeline.{CycleFeatures, features_of, compute_features}
use battery_lab_sim.Analytics.Tables.{
  CycleKey, CycleKey_eq, Tables, Results, latest_before, previous_r0, as_stored, upsert_features,
  AnomalyAlert, key_of,
}
use battery_lab_sim.Analytics.Process.{
  Settings, Event, Call, write_features, write_alert, emit_anomaly, write_results, computed,
  read_fault, process_cycle,
}
use text.Mathlib.Text.{◌==◌ as str_eq}
use text.Mathlib.TextEquality.{eq_iff}
use mathlib.Core.List.{Memᴰ}

insert-insert {ℓ κ} :
    {K : Type ℓ} {V : Type κ} ⦃e : Eq K⦄ (k : K) (v : V) (d : List (K × V))
    → insert k v (insert k v d) ≡ insert k v d
unfolding insert
insert-insert ⦃e⦄ k v [] = ground (arith, e.beq_iff k k)
insert-insert ⦃e⦄ k v ((j, w) ∷ d) =
    ground (arith, e.beq_iff k k, e.beq_iff j k, insert-insert k v d)

module _ {R : Type 0} where
  -- A row that is not of an earlier cycle is not the previous one.
  latest_before-insert :
      (id : String) (cycle : ℕ) (k : CycleKey) (f : CycleFeatures R)
      (rows : List (CycleKey × CycleFeatures R))
      → ltb k.cycle_index cycle ≡ false
      → latest_before id cycle (insert k f rows) ≡ latest_before id cycle rows
  unfolding latest_before insert
  latest_before-insert id cycle k f [] h = ground arith
  latest_before-insert id cycle k f ((j, g) ∷ rows) h =
      ground (arith, latest_before-insert id cycle k f rows h)

  -- A row of a cycle that is at least `n` and below `cycle`.
  abbrev pub IsLatest : ℕ → ℕ → Option (ℕ × Option R) → Type 0
  IsLatest n cycle none = ⊥
  IsLatest n cycle (some best) = (n ≤ best.0) × (best.0 < cycle)

  IsLatest-of_head :
      (id : String) (cycle : ℕ) (k : CycleKey) (f : CycleFeatures R)
      (rows : List (CycleKey × CycleFeatures R))
      → str_eq k.experiment_id id ≡ true
      → ltb k.cycle_index cycle ≡ true
      → ((n : ℕ) (r : Option R) → latest_before id cycle rows ≡ some (n, r) → n < cycle)
      → IsLatest k.cycle_index cycle (latest_before id cycle ((k, f) ∷ rows))
  unfolding latest_before
  IsLatest-of_head id cycle k f rows e l b = elim (Option-cases (latest_before id cycle rows)) [
    | inl q ↦ rw (e, latest_before) (rw l (rw q (ground arith)))
    | inr ((n, r), q) ↦ rw (e, latest_before) (rw l (rw q (ground (arith, b n r q))))
  ]

  latest_before-lt :
      (id : String) (cycle : ℕ) (rows : List (CycleKey × CycleFeatures R)) (n : ℕ) (r : Option R)
      → latest_before id cycle rows ≡ some (n, r)
      → n < cycle
  unfolding latest_before
  latest_before-lt id cycle [] n r q = ground arith
  latest_before-lt id cycle ((k, f) ∷ rows) n r q =
      ground (arith, latest_before-lt id cycle rows n r)

  IsLatest-of_tail :
      (id : String) (cycle n : ℕ) (row : CycleKey × CycleFeatures R)
      (rows : List (CycleKey × CycleFeatures R))
      → IsLatest n cycle (latest_before id cycle rows)
      → IsLatest n cycle (latest_before id cycle (row ∷ rows))
  unfolding latest_before
  IsLatest-of_tail id cycle n (k, f) rows h = ground (arith, h)

  -- Of the rows of an experiment with an earlier cycle, the previous one is the latest: one is found,
  -- it is of an earlier cycle, and no row's earlier cycle is above it.
  pub latest_before-IsLatest :
      (id : String) (cycle : ℕ) (k : CycleKey) (f : CycleFeatures R)
      (rows : List (CycleKey × CycleFeatures R))
      → Memᴰ (k, f) rows
      → k.experiment_id ≡ id
      → k.cycle_index < cycle
      → IsLatest k.cycle_index cycle (latest_before id cycle rows)
  latest_before-IsLatest id cycle k f [] m e l = elim m [ ]
  latest_before-IsLatest id cycle k f (row ∷ rows) (Memᴰ.head q) e l = rw (← q) (
      IsLatest-of_head id cycle k f rows ((eq_iff k.experiment_id id).1 e) (ground arith)
        (latest_before-lt id cycle rows))
  latest_before-IsLatest id cycle k f (row ∷ rows) (Memᴰ.tail m) e l =
      IsLatest-of_tail id cycle k.cycle_index row rows
        (latest_before-IsLatest id cycle k f rows m e l)

  previous_r0-upsert :
      (np : Numerics R) (id : String) (cycle : ℕ) (f : CycleFeatures R)
      (d : List (CycleKey × CycleFeatures R))
      → f.cycle_index ≡ cycle
      → previous_r0 id cycle (insert (key_of f) (as_stored np f) d) ≡ previous_r0 id cycle d
  unfolding previous_r0
  previous_r0-upsert np id cycle f d e =
      let h : ltb f.cycle_index cycle ≡ false = ground arith in
      rw (latest_before-insert id cycle (key_of f) (as_stored np f) d h, previous_r0) refl

module _ {R : Type 0} ⦃fl : Float R⦄ (np : Numerics R) (settings : Settings R) where
  -- The table with the computed features, if there are any.
  abbrev table_after :
      Option (CycleFeatures R)
      → List (CycleKey × CycleFeatures R)
      → List (CycleKey × CycleFeatures R)
  table_after none d = d
  table_after (some f) d = insert (key_of f) (as_stored np f) d

  emit_anomaly-features :
      (fault : Call → Option Failure) (a : Option (AnomalyAlert R)) (f : CycleFeatures R)
      (r : Results R)
      → (emit_anomaly fault a f r).1.features ≡ r.features
  unfolding emit_anomaly
  emit_anomaly-features fault none f r = refl
  emit_anomaly-features fault (some a) f r = elim (Option-cases (fault write_alert)) [
    | inl q ↦ rw (q, emit_anomaly) refl
    | inr (e, q) ↦ rw (q, emit_anomaly) refl
  ]

  write_results-features :
      (fault : Call → Option Failure) (event : Event) (prev : Option R)
      (o : Option (CycleFeatures R)) (r : Results R)
      → let after = (write_results np settings fault event prev o r).1.features in
        (after ≡ r.features) ⊎ (after ≡ table_after o r.features)
  unfolding write_results upsert_features
  write_results-features fault event prev none r = inl refl
  write_results-features fault event prev (some f) r = elim (Option-cases (fault write_features)) [
    | inr (e, q) ↦ inl (rw (q, write_results) refl)
    | inl q ↦ inr (rw (q, write_results) (emit_anomaly-features fault _ f (upsert_features np f r)))
  ]

  write_results-written :
      (fault : Call → Option Failure) (event : Event) (prev : Option R)
      (o : Option (CycleFeatures R)) (r : Results R)
      → fault write_features ≡ none
      → (write_results np settings fault event prev o r).1.features ≡ table_after o r.features
  unfolding write_results upsert_features
  write_results-written fault event prev none r q = refl
  write_results-written fault event prev (some f) r q =
      rw (q, write_results) (emit_anomaly-features fault _ f (upsert_features np f r))

  -- The features that an event gives, from the features that there are.
  abbrev outcome : Event → Tables R → List (CycleKey × CycleFeatures R) → Option (CycleFeatures R)
  outcome event t d =
      computed np settings event t (previous_r0 event.experiment_id event.cycle_index d)

  computed-cycle_index :
      (event : Event) (t : Tables R) (prev : Option R) (f : CycleFeatures R)
      → computed np settings event t prev ≡ some f
      → f.cycle_index ≡ event.cycle_index
  unfolding computed compute_features features_of
  computed-cycle_index event t prev f q = ground arith

  -- The features of an event are the same after a run of it.
  outcome-again :
      (event : Event) (t : Tables R) (o : Option (CycleFeatures R))
      (d : List (CycleKey × CycleFeatures R))
      → outcome event t d ≡ o
      → outcome event t (table_after o d) ≡ o
  outcome-again event t none d q = q
  outcome-again event t (some f) d q =
      ap (computed np settings event t) (
        previous_r0-upsert np event.experiment_id event.cycle_index f d
          (computed-cycle_index event t _ f q))
      ∙ q

  table_after-again :
      (o : Option (CycleFeatures R)) (d : List (CycleKey × CycleFeatures R))
      → table_after o (table_after o d) ≡ table_after o d
  table_after-again none d = refl
  table_after-again (some f) d = insert-insert (key_of f) (as_stored np f) d

  process_cycle-features :
      (fault : Call → Option Failure) (event : Event) (t : Tables R) (r : Results R)
      → let after = (process_cycle np settings fault event t r).1.features in
        (after ≡ r.features) ⊎ (after ≡ table_after (outcome event t r.features) r.features)
  unfolding process_cycle
  process_cycle-features fault event t r = elim (Option-cases (read_fault fault)) [
    | inr (e, q) ↦ inl (rw (q, process_cycle) refl)
    | inl q ↦
        rw (q, process_cycle) (write_results-features fault event _ (outcome event t r.features) r)
  ]

  abbrev pub HasNoFault : (Call → Option Failure) → Type 0
  HasNoFault fault = (c : Call) → fault c ≡ none

  read_fault-none : (fault : Call → Option Failure) → HasNoFault fault → read_fault fault ≡ none
  read_fault-none fault ok =
      ground (arith, ok Call.read_steps, ok Call.read_telemetry, ok Call.read_previous)

  process_cycle-written :
      (fault : Call → Option Failure) (event : Event) (t : Tables R) (r : Results R)
      → HasNoFault fault
      → (process_cycle np settings fault event t r).1.features
        ≡ table_after (outcome event t r.features) r.features
  unfolding process_cycle
  process_cycle-written fault event t r ok =
      rw (read_fault-none fault ok, process_cycle)
        (write_results-written fault event _ (outcome event t r.features) r (ok write_features))

  rerun-features :
      (event : Event) (t : Tables R) (d d' : List (CycleKey × CycleFeatures R))
      → (d' ≡ d) ⊎ (d' ≡ table_after (outcome event t d) d)
      → table_after (outcome event t d') d' ≡ table_after (outcome event t d) d
  rerun-features event t d d' (inl e) = ap (λ x. table_after (outcome event t x) x) e
  rerun-features event t d d' (inr e) =
      let o = outcome event t d in
      ap (λ x. table_after (outcome event t x) x) e
      ∙ ap (λ x. table_after x (table_after o d)) (outcome-again event t o d refl)
      ∙ table_after-again o d

  -- A run of an event that follows a run of the same event on the same tables, complete or broken off
  -- by a failure of any call, and in which no call fails, leaves the features that one run without
  -- failures leaves.
  pub process_cycle-rerun :
      (fault fault' : Call → Option Failure) (event : Event) (t : Tables R) (r : Results R)
      → HasNoFault fault'
      → let r' = (process_cycle np settings fault event t r).1 in
        (process_cycle np settings fault' event t r').1.features
        ≡ (process_cycle np settings fault' event t r).1.features
  process_cycle-rerun fault fault' event t r ok =
      let r' = (process_cycle np settings fault event t r).1 in
      process_cycle-written fault' event t r' ok
      ∙ rerun-features event t r.features r'.features (process_cycle-features fault event t r)
      ∙ sym (process_cycle-written fault' event t r ok)
