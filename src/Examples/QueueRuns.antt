-- ===== src/Examples/QueueRuns.antt =====
-- The theorems on the queues of the orchestrator at concrete inputs.
use battery_lab_sim.Prelude.{ℕ, zero, suc, ◌≡◌, refl, none, some, List, [], ◌∷◌, ◌++◌, arith}
use battery_lab_sim.Orchestrator.State.{ContextMessage}
use mathlib.Core.List.{Perm}
use battery_lab_sim.Orchestrator.Publisher.{
  QueuePublisher, QueueEvent, connecting, waiting, requeueing, enqueue, connect, take_item,
  publish_failed, requeue, publisher_run, context_publisher, retained_context,
}
use battery_lab_sim.Orchestrator.Publisher.Conserved.{held, accepted, publisher_run-conserves}
use battery_lab_sim.Orchestrator.Publisher.Wedged.{publisher_run-wedges}
use battery_lab_sim.Orchestrator.Publisher.Stale.{one_failure, context_publisher-stale}

abbrev first_context : ContextMessage
first_context = record { chassis_id = 1; channel_idx = 0; payload = none }

-- The experiment ends: the context is set, and then cleared.
abbrev set_context : ContextMessage
set_context = record first_context {
  payload = some (record {
    schedule_id = "formation";
    step_name = "rest";
    step_index = 1;
    cycle_index = 1;
    experiment_id = "exp-1";
  });
}

abbrev idle_publisher : QueuePublisher ContextMessage
idle_publisher = record { queue = []; phase = connecting; published = [] }

abbrev one_refusal : List (QueueEvent ContextMessage)
one_refusal =
    enqueue set_context
    ∷ connect
    ∷ take_item
    ∷ publish_failed
    ∷ enqueue first_context
    ∷ requeue
    ∷ []

publisher_run-conserves_example :
    Perm
      (held (publisher_run one_refusal idle_publisher))
      (held idle_publisher ++ accepted one_refusal idle_publisher)
publisher_run-conserves_example = publisher_run-conserves one_refusal idle_publisher

-- A queue of so many equal items.
abbrev items : ℕ → List ℕ
items zero = []
items (suc n) = 7 ∷ items n

publisher_run-wedges_example :
    publisher_run
      (take_item ∷ enqueue 8 ∷ publish_failed ∷ requeue ∷ connect ∷ [])
      (record { queue = 7 ∷ items 999; phase = waiting; published = [] })
    ≡ record { queue = items 999 ++ 8 ∷ []; phase = requeueing 7; published = [] }
publisher_run-wedges_example = publisher_run-wedges 7 8 (items 999) [] (requeue ∷ connect ∷ []) refl

context_publisher-stale_example :
    retained_context 1 0
      (context_publisher (one_failure set_context (first_context ∷ [])) (record {
        queue = set_context ∷ first_context ∷ [];
        phase = waiting;
        published = [];
      })).published
      none
    ≡ set_context.payload
context_publisher-stale_example =
    context_publisher-stale set_context (first_context ∷ []) [] none (omega arith)
