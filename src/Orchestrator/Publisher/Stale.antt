-- ===== src/Orchestrator/Publisher/Stale.antt =====
-- services/orchestrator/src/orchestrator/context.py: a context that goes back to the queue goes behind the
-- newer ones.
use battery_lab_sim.Prelude.{
  ℕ, ◌≤◌, ◌≡◌, refl, ap, sym, ◌∙◌, true, Option, List, [], ◌∷◌, ◌++◌, ltb, ==_iff, length, arith,
  if◌then◌else◌,
}
use battery_lab_sim.Orchestrator.State.{ContextPayload, ContextMessage, queue_max}
use battery_lab_sim.Orchestrator.Publisher.{
  waiting, connecting, requeueing, QueuePublisher, QueueEvent, connect, take_item, publish_ok,
  publish_failed, requeue, publisher_step, publisher_run, context_publisher, retained_context,
}
use mathlib.Core.List.{append_assoc, append-nil}

-- The broker takes a list of items, one after the other.
abbrev pub deliver : {A : Type 0} → List A → List (QueueEvent A)
deliver [] = []
deliver (a ∷ queue) = take_item ∷ publish_ok ∷ deliver queue

module _ {A : Type 0} where
  deliver-all :
      (queue published : List A)
      → (publisher_run
          (deliver queue)
          (record { queue = queue; phase = waiting; published = published })).published
        ≡ published ++ queue
  unfolding publisher_run publisher_step
  deliver-all [] published = sym (append-nil published)
  deliver-all (a ∷ queue) published =
      deliver-all queue (published ++ a ∷ []) ∙ append_assoc published (a ∷ []) queue

  -- One failure, and then all that is queued.
  abbrev pub one_failure : A → List A → List (QueueEvent A)
  one_failure a queue = take_item ∷ publish_failed ∷ requeue ∷ connect ∷ deliver (queue ++ a ∷ [])

  -- What comes after the failure finds the item behind the others.
  after_failure :
      (a : A) (queue published : List A) (es : List (QueueEvent A))
      → ltb (length queue) queue_max ≡ true
      → publisher_run
          (take_item ∷ publish_failed ∷ requeue ∷ connect ∷ es)
          (record { queue = a ∷ queue; phase = waiting; published = published })
        ≡ publisher_run es
            (record { queue = queue ++ a ∷ []; phase = waiting; published = published })
  unfolding publisher_run publisher_step
  after_failure a queue published es room =
      ap
        (λ b.
          let back : QueuePublisher A =
            if b
            then (record { queue = queue ++ a ∷ []; phase = connecting; published = published })
            else (record { queue = queue; phase = requeueing a; published = published }) in
          publisher_run es (publisher_step connect back))
        room

  one_failure-published :
      (a : A) (queue published : List A)
      → length (a ∷ queue) ≤ queue_max
      → (publisher_run
          (one_failure a queue)
          (record { queue = a ∷ queue; phase = waiting; published = published })).published
        ≡ published ++ (queue ++ a ∷ [])
  one_failure-published a queue published h =
      ap (λ (s : QueuePublisher A). s.published)
        (after_failure a queue published (deliver (queue ++ a ∷ [])) (ground arith))
      ∙ deliver-all (queue ++ a ∷ []) published

retained_context_last :
    (m : ContextMessage) (ms : List ContextMessage) (before : Option ContextPayload)
    → retained_context m.chassis_id m.channel_idx (ms ++ m ∷ []) before ≡ m.payload
unfolding retained_context
retained_context_last m [] before =
    rw ((==_iff m.chassis_id m.chassis_id).1 refl, (==_iff m.channel_idx m.channel_idx).1 refl) refl
retained_context_last m (n ∷ ms) before = retained_context_last m ms _

retained_context-append :
    (chassis channel : ℕ) (xs ys : List ContextMessage) (before : Option ContextPayload)
    → retained_context chassis channel (xs ++ ys) before
      ≡ retained_context chassis channel ys (retained_context chassis channel xs before)
unfolding retained_context
retained_context-append chassis channel [] ys before = refl
retained_context-append chassis channel (x ∷ xs) ys before =
    retained_context-append chassis channel xs ys _

-- If the broker refuses the first context of the queue once, and then takes all that is queued, then it
-- retains for that channel the context that was refused, whatever newer ones of the channel were behind it.
pub context_publisher-stale :
    (m : ContextMessage) (newer published : List ContextMessage) (before : Option ContextPayload)
    → length (m ∷ newer) ≤ queue_max
    → retained_context m.chassis_id m.channel_idx
        (context_publisher
          (one_failure m newer)
          (record { queue = m ∷ newer; phase = waiting; published = published })).published
        before
      ≡ m.payload
context_publisher-stale m newer published before h =
    ap (λ l. retained_context m.chassis_id m.channel_idx l before)
      (one_failure-published m newer published h)
    ∙ retained_context-append m.chassis_id m.channel_idx published (newer ++ m ∷ []) before
    ∙ retained_context_last m newer (retained_context m.chassis_id m.channel_idx published before)
