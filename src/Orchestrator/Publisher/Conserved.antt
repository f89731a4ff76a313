-- ===== src/Orchestrator/Publisher/Conserved.antt =====
-- The publisher loses and doubles no item that the queue took.
use mathlib.Core.List.Perm
use mathlib.Core.List.{
  Perm, append_assoc, append-nil, perm_append_singleton, perm-append_left_iff,
  perm-append_right_iff,
}
use battery_lab_sim.Prelude.{
  ◌≡◌, refl, sym, ap, subst, ◌∙◌, Bool-cases, inl, inr, List, [], ◌∷◌, ◌++◌, ltb, length,
  if◌then◌else◌,
}
use battery_lab_sim.Orchestrator.State.{queue_max, put_nowait}
use battery_lab_sim.Orchestrator.Publisher.{
  Phase, connecting, waiting, publishing, requeueing, QueuePublisher, QueueEvent, enqueue, connect,
  take_item, publish_ok, publish_failed, requeue, publisher_step, publisher_run,
}

module _ {A : Type 0} where
  -- The item in flight.
  abbrev pub in_flight : Phase A → List A
  in_flight connecting = []
  in_flight waiting = []
  in_flight (publishing a) = a ∷ []
  in_flight (requeueing a) = a ∷ []

  -- What was published, is in flight, or waits.
  abbrev pub held_at : Phase A → QueuePublisher A → List A
  held_at phase s = s.published ++ (in_flight phase ++ s.queue)

  abbrev pub held : QueuePublisher A → List A
  held s = held_at s.phase s

  -- The items of a sequence of events that the queue had room for.
  abbrev pub accepted_one : QueueEvent A → QueuePublisher A → List A
  accepted_one (enqueue a) s = if ltb (length s.queue) queue_max then a ∷ [] else []
  accepted_one _ s = []

  unfoldable pub accepted : List (QueueEvent A) → QueuePublisher A → List A
  accepted [] s = []
  accepted (e ∷ es) s = accepted_one e s ++ accepted es (publisher_step e s)

  same : {xs ys : List A} → xs ≡ ys → Perm xs ys
  same {xs} e = subst (Perm xs) e (Perm.refl xs)

  same_nil : {xs ys : List A} → xs ≡ ys → Perm xs (ys ++ [])
  same_nil {ys} e = same (e ∙ sym (append-nil ys))

  put_nowait-held :
      (phase : Phase A) (a : A) (s : QueuePublisher A)
      → s.phase ≡ phase
      → Perm
          (held_at phase (publisher_step (enqueue a) s))
          (held_at phase s ++ accepted_one (enqueue a) s)
  unfolding publisher_step put_nowait
  put_nowait-held phase a s e = elim (Bool-cases (ltb (length s.queue) queue_max)) [
    | inl room ↦ rw room (
        same (
          ap (λ l. s.published ++ l) (sym (append_assoc (in_flight phase) s.queue (a ∷ [])))
          ∙ sym (append_assoc s.published (in_flight phase ++ s.queue) (a ∷ []))))
    | inr full ↦ rw full (same_nil refl)
  ]

  abbrev at_phase : List A → List A → Phase A → QueuePublisher A
  at_phase queue published phase = record { queue = queue; phase = phase; published = published }

  -- What one event keeps.
  abbrev Conserves : QueueEvent A → QueuePublisher A → Type 0
  Conserves e s = Perm (held (publisher_step e s)) (held s ++ accepted_one e s)

  connect-held : (q p : List A) (phase : Phase A) → Conserves connect (at_phase q p phase)
  unfolding publisher_step
  connect-held q p connecting = same_nil refl
  connect-held q p waiting = same_nil refl
  connect-held q p (publishing a) = same_nil refl
  connect-held q p (requeueing a) = same_nil refl

  take_item-held : (q p : List A) (phase : Phase A) → Conserves take_item (at_phase q p phase)
  unfolding publisher_step
  take_item-held q p connecting = same_nil refl
  take_item-held [] p waiting = same_nil refl
  take_item-held (a ∷ q) p waiting = same_nil refl
  take_item-held q p (publishing a) = same_nil refl
  take_item-held q p (requeueing a) = same_nil refl

  publish_ok-held : (q p : List A) (phase : Phase A) → Conserves publish_ok (at_phase q p phase)
  unfolding publisher_step
  publish_ok-held q p connecting = same_nil refl
  publish_ok-held q p waiting = same_nil refl
  publish_ok-held q p (publishing a) = same_nil (append_assoc p (a ∷ []) q)
  publish_ok-held q p (requeueing a) = same_nil refl

  publish_failed-held :
      (q p : List A) (phase : Phase A) → Conserves publish_failed (at_phase q p phase)
  unfolding publisher_step
  publish_failed-held q p connecting = same_nil refl
  publish_failed-held q p waiting = same_nil refl
  publish_failed-held q p (publishing a) = same_nil refl
  publish_failed-held q p (requeueing a) = same_nil refl

  requeue-held : (q p : List A) (phase : Phase A) → Conserves requeue (at_phase q p phase)
  unfolding publisher_step
  requeue-held q p connecting = same_nil refl
  requeue-held q p waiting = same_nil refl
  requeue-held q p (publishing a) = same_nil refl
  requeue-held q p (requeueing a) = elim (Bool-cases (ltb (length q) queue_max)) [
    | inl room ↦
        rw room
          (Perm.trans ((perm-append_left_iff p).1 (perm_append_singleton a q)) (same_nil refl))
    | inr full ↦ rw full (same_nil refl)
  ]

  step-held : (e : QueueEvent A) (s : QueuePublisher A) → Conserves e s
  unfolding publisher_step
  step-held (enqueue a) s = put_nowait-held s.phase a s refl
  step-held connect s = connect-held s.queue s.published s.phase
  step-held take_item s = take_item-held s.queue s.published s.phase
  step-held publish_ok s = publish_ok-held s.queue s.published s.phase
  step-held publish_failed s = publish_failed-held s.queue s.published s.phase
  step-held requeue s = requeue-held s.queue s.published s.phase

  -- Whatever happens, in whatever order, what was published, is in flight or waits is what it was and
  -- the items that the queue had room for, each as often, in another order perhaps.
  pub publisher_run-conserves :
      (es : List (QueueEvent A)) (s : QueuePublisher A)
      → Perm (held (publisher_run es s)) (held s ++ accepted es s)
  unfolding publisher_run accepted
  publisher_run-conserves [] s = same_nil refl
  publisher_run-conserves (e ∷ es) s =
      Perm.trans (publisher_run-conserves es (publisher_step e s)) (
        Perm.trans ((perm-append_right_iff (accepted es (publisher_step e s))).1 (step-held e s))
          (same (append_assoc (held s) (accepted_one e s) (accepted es (publisher_step e s)))))
