-- ===== src/Analytics/Anomaly.antt =====
-- What is recorded is finite, and what is alerted is a jump.
use battery_lab_sim.Prelude.{
  ℕ, ◌≡◌, refl, subst, sym, String, true, Option, none, some, List, [], ◌∷◌, Option-cases, inl, inr,
  Bool-cases, All, ltb, length, All-append,
}
use battery_lab_sim.Prelude.Float.{Float}
use battery_lab_sim.Prelude.Attempt.{Failure}
use battery_lab_sim.Analytics.{Sample, Numerics}
use battery_lab_sim.Analytics.Features.{r0_jump_pct}
use battery_lab_sim.Analytics.Pipeline.{
  CycleFeatures, StepInterval, jump_of, clean, features_of, compute_features,
}
use battery_lab_sim.Analytics.Tables.{
  Tables, Results, AnomalyAlert, upsert_features, latest_before, previous_r0,
}
use battery_lab_sim.Analytics.Process.{
  Settings, Event, Call, write_features, write_alert, Payload, not_json, missing_fields, not_object,
  bad_number, complete, anomaly, emit_anomaly, write_results, computed, read_fault, process_cycle,
  process_event, consume,
}

module _ {R : Type 0} ⦃fl : Float R⦄ (np : Numerics R) where
  abbrev pub IsFinite : Option R → Type 0
  IsFinite none = Unit
  IsFinite (some x) = np.is_finite x ≡ true

  clean-IsFinite : (o : Option R) → IsFinite (clean np o)
  unfolding clean
  clean-IsFinite none = tt
  clean-IsFinite (some x) = elim (Bool-cases (np.is_finite x)) [
    | inl e ↦ rw (e, clean) e
    | inr e ↦ rw (e, clean) tt
  ]

  -- No feature is NaN or infinite.
  pub features_of-IsFinite :
      (rows : List (Sample R)) (id : String) (cycle : ℕ) (prev : Option R) (bin_mv : ℕ)
      (peak_height : R) (intervals : List (StepInterval R))
      → let f = features_of np rows id cycle prev bin_mv peak_height intervals in
        IsFinite f.capacity_ah
        × IsFinite f.coulombic_eff
        × IsFinite f.peak_temp_c
        × IsFinite f.r0_ohm
        × IsFinite f.r0_jump_pct
  unfolding features_of
  features_of-IsFinite rows id cycle prev bin_mv peak_height intervals = (
    search clean-IsFinite,
    search clean-IsFinite,
    search clean-IsFinite,
    search clean-IsFinite,
    search clean-IsFinite,
  )

module _ {R : Type 0} ⦃fl : Float R⦄ (np : Numerics R) (settings : Settings R) where
  -- The jump is above the threshold, and it is the relative change of the two resistances, of which the
  -- present one is finite.
  abbrev pub IsJump : AnomalyAlert R → Type 0
  IsJump a =
      (fl.lt settings.r0_jump_threshold_pct a.jump_pct ≡ true)
      × (a.jump_pct ≡ r0_jump_pct np a.r0_now a.r0_prev)
      × (np.is_finite a.jump_pct ≡ true)
      × (np.is_finite a.r0_now ≡ true)

  abbrev IsJump? : Option (AnomalyAlert R) → Type 0
  IsJump? none = Unit
  IsJump? (some a) = IsJump a

  cleaned-IsJump :
      (event : Event) (prev r0 jump : R)
      → jump ≡ r0_jump_pct np r0 prev
      → IsJump? (anomaly settings event (some prev) (clean np (some r0)) (clean np (some jump)))
  unfolding anomaly clean
  cleaned-IsJump event prev r0 jump q = elim (Bool-cases (np.is_finite r0)) [
    | inr e ↦ rw (e, clean) tt
    | inl e ↦
        rw (e, clean)
          (elim (Bool-cases (np.is_finite jump)) [
            | inr e' ↦ rw e' tt
            | inl e' ↦ rw e' (elim (Bool-cases (fl.lt settings.r0_jump_threshold_pct jump)) [
              | inr l ↦ rw (l, anomaly) tt
              | inl l ↦ rw (l, anomaly) (l, q, e', e)
            ])
          ])
  ]

  anomaly-IsJump :
      (event : Event) (prev r0 : Option R)
      → IsJump? (anomaly settings event prev (clean np r0) (clean np (jump_of np r0 prev)))
  unfolding anomaly clean jump_of
  anomaly-IsJump event none r0 = tt
  anomaly-IsJump event (some prev) none = tt
  anomaly-IsJump event (some prev) (some r0) =
      cleaned-IsJump event prev r0 (r0_jump_pct np r0 prev) refl

  -- The features of an event, with the resistance before, give a true jump or none.
  abbrev IsJudged : Event → Option R → Option (CycleFeatures R) → Type 0
  IsJudged event prev none = Unit
  IsJudged event prev (some f) = IsJump? (anomaly settings event prev f.r0_ohm f.r0_jump_pct)

  features_of-IsJudged :
      (event : Event) (rows : List (Sample R)) (id : String) (cycle : ℕ) (prev : Option R)
      (bin_mv : ℕ) (peak_height : R) (intervals : List (StepInterval R))
      → IsJudged event prev (some (features_of np rows id cycle prev bin_mv peak_height intervals))
  unfolding features_of
  features_of-IsJudged event rows id cycle prev bin_mv peak_height intervals = search anomaly-IsJump

  compute_features-IsJudged :
      (event : Event) (rows : List (Sample R)) (id : String) (cycle : ℕ) (prev : Option R)
      (bin_mv : ℕ) (peak_height : R) (intervals : List (StepInterval R))
      → IsJudged event prev (compute_features np rows id cycle prev bin_mv peak_height intervals)
  unfolding compute_features
  compute_features-IsJudged event rows id cycle prev bin_mv peak_height intervals =
      elim (Bool-cases (ltb (length rows) 10)) [
        | inl e ↦ rw (e, compute_features) tt
        | inr e ↦
            rw (e, compute_features)
              (features_of-IsJudged event rows id cycle prev bin_mv peak_height intervals)
      ]

  computed-IsJudged :
      (event : Event) (t : Tables R) (prev : Option R)
      → IsJudged event prev (computed np settings event t prev)
  unfolding computed
  computed-IsJudged event t prev =
      compute_features-IsJudged event _ event.experiment_id event.cycle_index prev settings.bin_mv
        settings.peak_height _

  emit_anomaly-IsJump :
      (fault : Call → Option Failure) (a : Option (AnomalyAlert R)) (f : CycleFeatures R)
      (r : Results R)
      → IsJump? a
      → All IsJump r.alerts
      → All IsJump (emit_anomaly fault a f r).1.alerts
  unfolding emit_anomaly
  emit_anomaly-IsJump fault none f r j all = all
  emit_anomaly-IsJump fault (some a) f r j all = elim (Option-cases (fault write_alert)) [
    | inr (e, q) ↦ rw (q, emit_anomaly) all
    | inl q ↦ rw (q, emit_anomaly) (All-append IsJump r.alerts (a ∷ []) all (j, tt))
  ]

  write_results-IsJump :
      (fault : Call → Option Failure) (event : Event) (prev : Option R)
      (o : Option (CycleFeatures R)) (r : Results R)
      → IsJudged event prev o
      → All IsJump r.alerts
      → All IsJump (write_results np settings fault event prev o r).1.alerts
  unfolding write_results upsert_features
  write_results-IsJump fault event prev none r j all = all
  write_results-IsJump fault event prev (some f) r j all =
      elim (Option-cases (fault write_features)) [
        | inr (e, q) ↦ rw (q, write_results) all
        | inl q ↦
            rw (q, write_results) (emit_anomaly-IsJump fault _ f (upsert_features np f r) j all)
      ]

  process_cycle-IsJump :
      (fault : Call → Option Failure) (event : Event) (t : Tables R) (r : Results R)
      → All IsJump r.alerts
      → All IsJump (process_cycle np settings fault event t r).1.alerts
  unfolding process_cycle
  process_cycle-IsJump fault event t r all = elim (Option-cases (read_fault fault)) [
    | inr (e, q) ↦ rw (q, process_cycle) all
    | inl q ↦
        rw (q, process_cycle)
          (write_results-IsJump fault event _ (computed np settings event t _) r
            (computed-IsJudged event t _) all)
  ]

  process_event-IsJump :
      (fault : Call → Option Failure) (payload : Payload) (t : Tables R) (r : Results R)
      → All IsJump r.alerts
      → All IsJump (process_event np settings fault payload t r).1.alerts
  unfolding process_event
  process_event-IsJump fault not_json t r all = all
  process_event-IsJump fault missing_fields t r all = all
  process_event-IsJump fault not_object t r all = all
  process_event-IsJump fault bad_number t r all = all
  process_event-IsJump fault (complete event) t r all = process_cycle-IsJump fault event t r all

  -- Whatever payloads come and whatever calls fail, each alert is of a jump above the threshold, which
  -- is finite and the relative change from the resistance before to the present one, which is finite;
  -- if that was so of the alerts at the start.
  pub consume-IsJump :
      (msgs : List (Payload × Tables R × (Call → Option Failure))) (r : Results R)
      → All IsJump r.alerts
      → All IsJump (consume np settings msgs r).1.alerts
  unfolding consume
  consume-IsJump [] r all = all
  consume-IsJump ((payload, t, fault) ∷ msgs) r all =
      let after = process_event np settings fault payload t r in
      let all' = process_event-IsJump fault payload t r all in
      elim (Option-cases after.0) [
        | inr (e, q) ↦ rw (q, consume) all'
        | inl q ↦ rw (q, consume) (consume-IsJump msgs after.1 all')
      ]

  write_results-silent :
      (fault : Call → Option Failure) (event : Event) (o : Option (CycleFeatures R)) (r : Results R)
      → (write_results np settings fault event none o r).1.alerts ≡ r.alerts
  unfolding write_results upsert_features emit_anomaly anomaly
  write_results-silent fault event none r = refl
  write_results-silent fault event (some f) r = elim (Option-cases (fault write_features)) [
    | inr (e, q) ↦ rw (q, write_results) refl
    | inl q ↦ rw (q, write_results) refl
  ]

  -- If the latest earlier cycle has no resistance, no alert is written, whatever the cycles before it
  -- had.
  pub process_cycle-silent :
      (fault : Call → Option Failure) (event : Event) (t : Tables R) (r : Results R) (n : ℕ)
      → latest_before event.experiment_id event.cycle_index r.features ≡ some (n, none)
      → (process_cycle np settings fault event t r).1.alerts ≡ r.alerts
  unfolding process_cycle previous_r0
  process_cycle-silent fault event t r n h = elim (Option-cases (read_fault fault)) [
    | inr (e, q) ↦ rw (q, process_cycle) refl
    | inl q ↦
        let p : previous_r0 event.experiment_id event.cycle_index r.features ≡ none =
          rw (h, previous_r0) refl in
        rw (q, process_cycle)
          (subst
            (λ prev.
              (write_results np settings fault event prev (computed np settings event t prev)
                r).1.alerts
              ≡ r.alerts)
            (sym p) (write_results-silent fault event (computed np settings event t none) r))
  ]
