-- ===== src/Orchestrator/Publisher.antt =====
-- services/orchestrator/src/orchestrator/events.py and context.py: the loops that hand a bounded queue to
-- the broker. Both run the same way, on events and on contexts; an item is a message.
pub mod Conserved
pub mod Wedged
pub mod Stale
use battery_lab_sim.Prelude.{
  ℕ, Bool, true, false, ◌&&◌, Option, none, some, List, [], ◌∷◌, ◌++◌, ◌==◌, ltb, if◌then◌else◌,
  length,
}
use battery_lab_sim.Orchestrator.State.{
  ContextPayload, ContextMessage, CycleEvent, queue_max, put_nowait,
}

-- Where the loop waits: for the broker, for an item, for the broker to take an item, or for room in
-- the queue to put an item back.
pub data Phase (A : Type 0) : Type 0 where
  connecting : Phase A
  waiting : Phase A
  publishing : A → Phase A
  requeueing : A → Phase A

pub record QueuePublisher (A : Type 0) : Type 0 where
  pub queue : List A
  pub phase : Phase A
  pub published : List A

-- What happens: the executor enqueues, the client connects, the queue hands an item over, the broker
-- takes it or `publish` raises `MqttError`, and the item goes back.
pub data QueueEvent (A : Type 0) : Type 0 where
  enqueue : A → QueueEvent A
  connect : QueueEvent A
  take_item : QueueEvent A
  publish_ok : QueueEvent A
  publish_failed : QueueEvent A
  requeue : QueueEvent A

module _ {A : Type 0} where
  abbrev pub on_connect : Phase A → QueuePublisher A → QueuePublisher A
  on_connect connecting s = record s { phase = waiting }
  on_connect _ s = s

  -- `await _queue.get()`
  abbrev pub take_first : List A → QueuePublisher A → QueuePublisher A
  take_first [] s = s
  take_first (a ∷ queue) s = record s { queue = queue; phase = publishing a }

  abbrev pub on_take : Phase A → QueuePublisher A → QueuePublisher A
  on_take waiting s = take_first s.queue s
  on_take _ s = s

  abbrev pub on_published : Phase A → QueuePublisher A → QueuePublisher A
  on_published (publishing a) s = record s { phase = waiting; published = s.published ++ a ∷ [] }
  on_published _ s = s

  abbrev pub on_failed : Phase A → QueuePublisher A → QueuePublisher A
  on_failed (publishing a) s = record s { phase = requeueing a }
  on_failed _ s = s

  -- `await _queue.put(payload)`, which waits for room; then `raise`.
  abbrev pub on_requeue : Phase A → QueuePublisher A → QueuePublisher A
  on_requeue (requeueing a) s =
      if ltb (length s.queue) queue_max
      then record s { queue = s.queue ++ a ∷ []; phase = connecting }
      else s
  on_requeue _ s = s

  -- One step of `event_publisher_loop`, or of the executor beside it.
  unfoldable pub publisher_step : QueueEvent A → QueuePublisher A → QueuePublisher A
  unfolding put_nowait
  publisher_step (enqueue a) s = record s { queue = put_nowait s.queue a }
  publisher_step connect s = on_connect s.phase s
  publisher_step take_item s = on_take s.phase s
  publisher_step publish_ok s = on_published s.phase s
  publisher_step publish_failed s = on_failed s.phase s
  publisher_step requeue s = on_requeue s.phase s

  unfoldable pub publisher_run : List (QueueEvent A) → QueuePublisher A → QueuePublisher A
  unfolding publisher_step
  publisher_run [] s = s
  publisher_run (e ∷ es) s = publisher_run es (publisher_step e s)

-- `event_publisher_loop` and `context_publisher_loop`
abbrev pub event_publisher :
    List (QueueEvent CycleEvent) → QueuePublisher CycleEvent → QueuePublisher CycleEvent
event_publisher es s = publisher_run es s

abbrev pub context_publisher :
    List (QueueEvent ContextMessage) → QueuePublisher ContextMessage → QueuePublisher ContextMessage
context_publisher es s = publisher_run es s

abbrev pub is_of : ℕ → ℕ → ContextMessage → Bool
is_of chassis channel m = m.chassis_id == chassis && m.channel_idx == channel

abbrev pub payload_or : Option ContextPayload → Bool → Option ContextPayload → Option ContextPayload
payload_or before own payload = if own then payload else before

-- The context that the broker retains for a channel: the last one on its topic; an empty one clears it.
unfoldable pub retained_context :
    ℕ → ℕ → List ContextMessage → Option ContextPayload → Option ContextPayload
retained_context chassis channel [] before = before
retained_context chassis channel (m ∷ ms) before =
    retained_context chassis channel ms (payload_or before (is_of chassis channel m) m.payload)
