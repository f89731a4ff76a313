-- ===== src/Orchestrator/Publisher/Wedged.antt =====
-- services/orchestrator/src/orchestrator/events.py and context.py: an item that cannot go back to the
-- queue, since the loop that waits for room is the only one that makes room.
use battery_lab_sim.Prelude.{
  ◌≡◌, refl, ap, ◌∙◌, true, false, List, [], ◌∷◌, ◌++◌, ltb, length, length-append, arith,
}
use battery_lab_sim.Orchestrator.State.{queue_max, put_nowait}
use battery_lab_sim.Orchestrator.Publisher.{
  waiting, requeueing, QueuePublisher, QueueEvent, enqueue, connect, take_item, publish_ok,
  publish_failed, requeue, publisher_step, publisher_run,
}

module _ {A : Type 0} where
  -- The loop waits for room in a full queue.
  abbrev stuck : A → List A → List A → QueuePublisher A
  stuck a queue published = record { queue = queue; phase = requeueing a; published = published }

  step_stuck :
      (a : A) (queue published : List A) (e : QueueEvent A)
      → ltb (length queue) queue_max ≡ false
      → publisher_step e (stuck a queue published) ≡ stuck a queue published
  unfolding publisher_step put_nowait
  step_stuck a queue published (enqueue b) h = rw h refl
  step_stuck a queue published connect h = refl
  step_stuck a queue published take_item h = refl
  step_stuck a queue published publish_ok h = refl
  step_stuck a queue published publish_failed h = refl
  step_stuck a queue published requeue h = rw h refl

  run_stuck :
      (a : A) (queue published : List A) (es : List (QueueEvent A))
      → ltb (length queue) queue_max ≡ false
      → publisher_run es (stuck a queue published) ≡ stuck a queue published
  unfolding publisher_run
  run_stuck a queue published [] h = refl
  run_stuck a queue published (e ∷ es) h =
      ap (publisher_run es) (step_stuck a queue published e h) ∙ run_stuck a queue published es h

  room_after_take :
      (a : A) (queue : List A)
      → length (a ∷ queue) ≡ queue_max
      → ltb (length queue) queue_max ≡ true
  room_after_take a queue h = ground arith

  full_again :
      (a b : A) (queue : List A)
      → length (a ∷ queue) ≡ queue_max
      → ltb (length (queue ++ b ∷ [])) queue_max ≡ false
  full_again a b queue h = ground (arith, length-append queue (b ∷ []))

  -- If the queue is full, the loop takes its first item, the executor enqueues another one, and the
  -- broker refuses the item, then nothing is ever published again and no other item is taken in,
  -- whatever happens.
  pub publisher_run-wedges :
      (a b : A) (queue published : List A) (es : List (QueueEvent A))
      → length (a ∷ queue) ≡ queue_max
      → publisher_run
          (take_item ∷ enqueue b ∷ publish_failed ∷ es)
          (record { queue = a ∷ queue; phase = waiting; published = published })
        ≡ record { queue = queue ++ b ∷ []; phase = requeueing a; published = published }
  unfolding publisher_run publisher_step put_nowait
  publisher_run-wedges a b queue published es h =
      rw (room_after_take a queue h)
        (run_stuck a (queue ++ b ∷ []) published es (full_again a b queue h))
