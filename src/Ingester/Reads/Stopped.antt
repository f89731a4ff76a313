-- ===== src/Ingester/Reads/Stopped.antt =====
-- The loop of the ingester on what the broker delivers: what it makes of the topics that are published, and
-- of payloads that it cannot read.
use battery_lab_sim.Prelude.{
  ◌≡◌, refl, ap, ◌∙◌, false, some, List, [], ◌∷◌, ◌++◌, All, arith, Bool-cases, inl, inr,
}
use battery_lab_sim.Prelude.Int.{ℤ}
use battery_lab_sim.Prelude.Attempt.{other_error, Attempt, returned, raised}
use battery_lab_sim.Prelude.Float.{Float}
use battery_lab_sim.Hosts.{Text, is_empty}
use battery_lab_sim.Hosts.Texts.{Lacks, join, split-join}
use battery_lab_sim.Ingester.{
  ChannelKey, Message, unparsable_telemetry, Outcome, Ingester, on_message, run,
}
use battery_lab_sim.Ingester.Reads.{
  Delivery, Python, not_object, stopped, experiment_root, telemetry_root, starts_with, key_of_parts,
  key_of_topic, context_message, telemetry_message, read_context, read_telemetry, read_message,
  on_read, on_delivery, serve_all,
}

-- f"{root}/{chassis_id}/{channel_idx}", where `str` writes a number
unfoldable pub topic_of : (ℤ → Text) → Text → ChannelKey → Text
topic_of str root key = join b'/' (root ∷ str key.chassis_id ∷ str key.channel_idx ∷ [])

module _ {R V : Type 0} (py : Python R V) where
  key_of_topic-topic_of :
      (str : ℤ → Text) (root : Text) (key : ChannelKey)
      → py.int (str key.chassis_id) ≡ some key.chassis_id
      → py.int (str key.channel_idx) ≡ some key.channel_idx
      → All (Lacks b'/') (str key.chassis_id ∷ str key.channel_idx ∷ [])
      → Lacks b'/' root
      → key_of_topic py (topic_of str root key) ≡ some key
  unfolding key_of_topic topic_of
  key_of_topic-topic_of str root key chassis channel plain h =
      let parts = split-join b'/' root (str key.chassis_id ∷ str key.channel_idx ∷ []) (h, plain) in
      ap (key_of_parts py) parts ∙ rw (chassis, channel) refl

  -- If `int` reads the two ids of a channel as `str` writes them, and they are written without a slash, then
  -- a payload on the topic that the orchestrator publishes for the channel is read as that channel's
  -- context, and one on the topic that its cycler publishes is read as that channel's telemetry.
  pub read_message-topic_of :
      (str : ℤ → Text) (key : ChannelKey) (payload : Text)
      → py.int (str key.chassis_id) ≡ some key.chassis_id
      → py.int (str key.channel_idx) ≡ some key.channel_idx
      → All (Lacks b'/') (str key.chassis_id ∷ str key.channel_idx ∷ [])
      → (read_message py (topic_of str experiment_root key) payload
          ≡ context_message py key payload)
        × (read_message py (topic_of str telemetry_root key) payload
            ≡ telemetry_message py key payload)
  unfolding read_message read_context read_telemetry topic_of starts_with
  read_message-topic_of str key payload chassis channel plain = (
    rw (key_of_topic-topic_of str experiment_root key chassis channel plain (ground arith)) refl,
    rw (key_of_topic-topic_of str telemetry_root key chassis channel plain (ground arith)) refl,
  )

  -- A payload that is JSON and no object, and whose topic has the ids of a channel, raises.
  read_message_raises :
      (topic payload : Text) (key : ChannelKey)
      → key_of_topic py topic ≡ some key
      → is_empty payload ≡ false
      → py.loads payload ≡ not_object
      → read_message py topic payload ≡ raised other_error
  unfolding read_message read_context read_telemetry context_message telemetry_message
  read_message_raises topic payload key e filled bad =
      let is_context = starts_with (experiment_root ++ b'/' ∷ []) topic in
      elim (Bool-cases is_context) [
        | inl t ↦ rw (t, e, filled, bad) refl
        | inr t ↦ rw (t, e, bad) refl
      ]

  module _ ⦃fl : Float R⦄ where
    -- The delivery is read without an exception, refused or not.
    abbrev pub IsRead : Delivery R → Type 0
    IsRead d = (msg : Message R) × (read_message py d.topic d.payload ≡ returned msg)

    abbrev pub message_or : Message R → Attempt (Message R) → Message R
    message_or m (returned msg) = msg
    message_or m (raised e) = m

    -- The messages that the deliveries are read as.
    unfoldable pub messages_of : List (Delivery R) → List (Outcome R × R × Message R)
    messages_of [] = []
    messages_of (d ∷ ds) =
        (d.outcome, d.now, message_or unparsable_telemetry (read_message py d.topic d.payload))
        ∷ messages_of ds

    -- Deliveries that are read without an exception are messages, one after the other.
    serve_all-messages :
        (before after : List (Delivery R)) (s : Ingester R)
        → All IsRead before
        → serve_all py (before ++ after) s ≡ serve_all py after (run (messages_of before) s)
    unfolding serve_all on_delivery on_read messages_of run
    serve_all-messages [] after s all = refl
    serve_all-messages (d ∷ before) after s ((msg, e), all) =
        rw e (serve_all-messages before after (on_message d.outcome d.now msg s) all)

    -- If the deliveries before one are read without an exception, and that one has the topic of a channel
    -- and a payload that is JSON and no object, then it stops the process, in the state that the messages
    -- before it led to, whatever comes after it.
    pub serve_all-stops :
        (before after : List (Delivery R)) (d : Delivery R) (key : ChannelKey) (s : Ingester R)
        → All IsRead before
        → key_of_topic py d.topic ≡ some key
        → is_empty d.payload ≡ false
        → py.loads d.payload ≡ not_object
        → serve_all py (before ++ d ∷ after) s ≡ stopped (run (messages_of before) s)
    unfolding serve_all on_delivery on_read
    serve_all-stops before after d key s all e filled bad =
        serve_all-messages before (d ∷ after) s all
        ∙ rw (read_message_raises d.topic d.payload key e filled bad) refl
