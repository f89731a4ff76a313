-- ===== src/Watchdog/Alerts/Conservation.antt =====
-- What becomes of an alert: it is stored, waits or, if an exception escapes, is lost.
use mathlib.Core.List.{Perm}
use battery_lab_sim.Prelude.{
  ℕ, ◌≤◌, ◌≡◌, refl, Bool, ◌&&◌, if◌then◌else◌, List, [], ◌∷◌, ◌++◌, arith, length, length-append,
}
use battery_lab_sim.Prelude.Attempt.{
  Attempt, postgres_error, os_error, other_error, returned, raised,
}
use battery_lab_sim.Watchdog.Alerts.{
  DbAnswer, stored, refused, committed, Alert, Sink, retry_queue_cap, push_bounded, insert_on,
  insert_db, after_first, after_insert, and_then, is_critical, drain, publish, store,
  publish_critical, emit,
}

-- What the sink holds: the rows that are stored and those that wait.
abbrev pub held : Sink → List Alert
held s = s.rows ++ s.retry

-- Two sinks that published the same.
abbrev SamePublished : Sink → Sink → Type 0
SamePublished s s' = (s'.published ≡ s.published) × (s'.mqtt_calls ≡ s.mqtt_calls)

-- After the inserts of `emit`: if they returned, the sink holds the alert and what it held, and if they
-- raised, exactly what it held.
abbrev IsStored : Alert → Sink → Attempt (Unit {0}) × Sink → Type 0
IsStored a s (returned x, s') = Perm (held s') (a ∷ held s) × SamePublished s s'
IsStored a s (raised e, s') = (held s' ≡ held s) × SamePublished s s'

-- What `emit` leaves: if it returned, the sink holds the alert and what it held, and an alert that is
-- critical is published if the broker takes it; if it raised, it holds exactly what it held, and nothing
-- was published.
abbrev pub IsConserved : (ℕ → Bool) → Alert → Sink → Attempt (Unit {0}) × Sink → Type 0
IsConserved mqtt_up a s (returned x, s') =
    Perm (held s') (a ∷ held s)
    × (s'.published ≡ (
        if is_critical a.severity && mqtt_up s.mqtt_calls
        then s.published ++ a ∷ []
        else s.published))
IsConserved mqtt_up a s (raised e, s') = (held s' ≡ held s) × (s'.published ≡ s.published)

-- The database has not committed a row whose insert raised.
abbrev pub IsDefinite : DbAnswer → Type 0
IsDefinite stored = Unit
IsDefinite (refused e) = Unit
IsDefinite (committed e) = ⊥

push_bounded-le :
    (q : List Alert) (a : Alert)
    → length q ≤ retry_queue_cap
    → length (push_bounded q a) ≤ retry_queue_cap
unfolding push_bounded
push_bounded-le [] a h = omega arith
push_bounded-le (b ∷ q) a h =
    ground (arith, length-append (b ∷ q) (a ∷ []), length-append q (a ∷ []))

module _ (db : ℕ → DbAnswer) (mqtt_up : ℕ → Bool) where
  -- A predicate on the sink after a drain, by the answer to the insert of the first alert.
  drain_first :
      (P : Sink → Type 0) (a : Alert) (q : List Alert) (s : Sink) (answer : DbAnswer)
      → P (drain db mqtt_up q (insert_on stored a s).1).1
      → ((s' : Sink)
          → (IsDefinite answer → s'.rows ≡ s.rows)
          → SamePublished s s'
          → s'.retry ≡ a ∷ q
          → P s')
      → let r = insert_on answer a s in
        P (after_first r.0 (record r.1 { retry = a ∷ q }) (drain db mqtt_up q r.1)).1
  drain_first P a q s stored go stop = go
  drain_first P a q s (refused postgres_error) go stop = stop _ (λ k. refl) (refl, refl) refl
  drain_first P a q s (refused os_error) go stop = stop _ (λ k. refl) (refl, refl) refl
  drain_first P a q s (refused other_error) go stop = stop _ (λ k. refl) (refl, refl) refl
  drain_first P a q s (committed postgres_error) go stop = stop _ (λ k. absurd k) (refl, refl) refl
  drain_first P a q s (committed os_error) go stop = stop _ (λ k. absurd k) (refl, refl) refl
  drain_first P a q s (committed other_error) go stop = stop _ (λ k. absurd k) (refl, refl) refl

  drain-length : (q : List Alert) (s : Sink) → length (drain db mqtt_up q s).1.retry ≤ length q
  unfolding drain insert_db
  drain-length [] s = omega arith
  drain-length (a ∷ q) s =
      drain_first (λ s'. length s'.retry ≤ length (a ∷ q)) a q s (db s.db_calls)
        (omega (arith, drain-length q (insert_on stored a s).1)) (λ s' r p h. rw h (omega arith))

  stored-le :
      (a : Alert) (s : Sink) (answer : DbAnswer)
      → length s.retry ≤ retry_queue_cap
      → length (after_insert a (insert_on answer a s)).1.retry ≤ retry_queue_cap
  stored-le a s stored h = h
  stored-le a s (refused postgres_error) h = push_bounded-le s.retry a h
  stored-le a s (refused os_error) h = h
  stored-le a s (refused other_error) h = h
  stored-le a s (committed postgres_error) h = push_bounded-le s.retry a h
  stored-le a s (committed os_error) h = h
  stored-le a s (committed other_error) h = h

  emitted-le :
      (a : Alert) (r : Attempt (Unit {0}) × Sink)
      → length r.1.retry ≤ retry_queue_cap
      → length (and_then (and_then r (store db mqtt_up a)) (publish_critical db mqtt_up a)).1.retry
        ≤ retry_queue_cap
  unfolding store insert_db publish_critical publish
  emitted-le a (raised e, s) h = h
  emitted-le a (returned tt, s) h =
      published (after_insert a (insert_on (db s.db_calls) a s)) (stored-le a s (db s.db_calls) h)
    where
      published :
          (r : Attempt (Unit {0}) × Sink)
          → length r.1.retry ≤ retry_queue_cap
          → length (and_then r (publish_critical db mqtt_up a)).1.retry ≤ retry_queue_cap
      published (raised e, t) k = k
      published (returned tt, t) k = ground arith

  -- An alert leaves the retry queue within its cap if it was within it, whatever the database answers.
  pub emit-retry_le_cap :
      (a : Alert) (s : Sink)
      → length s.retry ≤ retry_queue_cap
      → length (emit db mqtt_up a s).1.retry ≤ retry_queue_cap
  unfolding emit
  emit-retry_le_cap a s h =
      emitted-le a (drain db mqtt_up s.retry s) (omega (arith, h, drain-length s.retry s))
