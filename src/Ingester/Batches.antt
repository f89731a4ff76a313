-- ===== src/Ingester/Batches.antt =====
-- What becomes of the rows: the buffer stays below a batch, and every row is stored, waits or was in a
-- batch that the database refused.
use battery_lab_sim.Prelude.{
  ◌<◌, ◌≡◌, refl, sym, ◌∙◌, ap, Option, none, some, List, [], ◌∷◌, ◌++◌, arith, length, All,
  Bool-cases, inl, inr, if◌then◌else◌,
}
use battery_lab_sim.Prelude.Float.{Float}
use battery_lab_sim.Prelude.Dict.{lookup, lookup-insert, lookup-erase}
use battery_lab_sim.Ingester.{
  batch_max, ChannelKey, ChannelKey_eq, channel_key_beq, Context, Row, Message, experiment,
  telemetry, unparsable_experiment, unparsable_telemetry, Outcome, taken, failed, Ingester,
  update_context, parse, buffer_row, reconnect, is_due, flush, flush_if_due, on_message, run,
}
use mathlib.Core.List.{append_assoc, append-nil}

lookup-update_context :
    (key k : ChannelKey) (ctx : Option Context) (context : List (ChannelKey × Context))
    → lookup key (update_context k ctx context)
      ≡ (if channel_key_beq k key then ctx else lookup key context)
unfolding update_context
lookup-update_context key k none context = lookup-erase k key context
lookup-update_context key k (some ctx) context = lookup-insert k key ctx context

module _ {R : Type 0} ⦃fl : Float R⦄ where
  -- The buffer is shorter than a batch, and no row was dropped from it.
  abbrev pub IsSmall : Ingester R → Type 0
  IsSmall s = (length s.buffer < batch_max) × (s.drops ≡ 0)

  flush_if_due-IsSmall :
      (outcome : Outcome R) (now : R) (s : Ingester R)
      → s.drops ≡ 0
      → IsSmall (flush_if_due outcome now s)
  unfolding flush_if_due flush reconnect is_due
  flush_if_due-IsSmall taken now s h = ground arith
  flush_if_due-IsSmall (failed reconnected) now s h = ground arith

  on_message-IsSmall :
      (outcome : Outcome R) (now : R) (msg : Message R) (s : Ingester R)
      → IsSmall s
      → IsSmall (on_message outcome now msg s)
  unfolding on_message buffer_row
  on_message-IsSmall outcome now (experiment key ctx) s h = h
  on_message-IsSmall outcome now unparsable_experiment s h = h
  on_message-IsSmall outcome now unparsable_telemetry s h = flush_if_due-IsSmall outcome now s h.1
  on_message-IsSmall outcome now (telemetry key sample) s h =
      flush_if_due-IsSmall outcome now (buffer_row (parse key sample s.context) s) (ground arith)

  -- From a buffer that is shorter than a batch, whatever messages come and whatever the database does,
  -- the buffer stays shorter than a batch and no row is dropped because of the hard cap.
  pub run-IsSmall :
      (msgs : List (Outcome R × R × Message R)) (s : Ingester R) → IsSmall s → IsSmall (run msgs s)
  unfolding run
  run-IsSmall [] s h = h
  run-IsSmall ((outcome, now, msg) ∷ msgs) s h =
      run-IsSmall msgs (on_message outcome now msg s) (on_message-IsSmall outcome now msg s h)

  -- The row of a message, and the contexts after it.
  unfoldable pub row_of : Message R → List (ChannelKey × Context) → List (Row R)
  row_of (telemetry key sample) context = parse key sample context ∷ []
  row_of _ context = []

  unfoldable pub context_after :
      Message R → List (ChannelKey × Context) → List (ChannelKey × Context)
  context_after (experiment key ctx) context = update_context key ctx context
  context_after _ context = context

  -- The rows of the messages, each with the context of its channel at that time.
  unfoldable pub joined :
      List (Outcome R × R × Message R) → List (ChannelKey × Context) → List (Row R)
  joined [] context = []
  joined ((outcome, now, msg) ∷ msgs) context =
      row_of msg context ++ joined msgs (context_after msg context)

  flush_if_due-rows :
      (now : R) (s : Ingester R)
      → let t = flush_if_due taken now s in
        (t.stored ++ t.buffer ≡ s.stored ++ s.buffer) × (t.context ≡ s.context)
  unfolding flush_if_due flush
  flush_if_due-rows now s = elim (Bool-cases (is_due now s)) [
    | inl e ↦ rw e (append-nil (s.stored ++ s.buffer), refl)
    | inr e ↦ rw e (refl, refl)
  ]

  buffer_row-rows :
      (row : Row R) (s : Ingester R)
      → IsSmall s
      → buffer_row row s ≡ record s { buffer = s.buffer ++ row ∷ [] }
  unfolding buffer_row
  buffer_row-rows row s h = ground arith

  abbrev pub IsTaken : Outcome R × R × Message R → Type 0
  IsTaken (outcome, now, msg) = outcome ≡ taken

  abbrev pub rows : Ingester R → List (Row R)
  rows s = s.stored ++ s.buffer

  on_message-rows :
      (now : R) (msg : Message R) (s : Ingester R)
      → IsSmall s
      → rows (on_message taken now msg s) ≡ rows s ++ row_of msg s.context
  unfolding on_message row_of
  on_message-rows now (experiment key ctx) s h = sym (append-nil (rows s))
  on_message-rows now unparsable_experiment s h = sym (append-nil (rows s))
  on_message-rows now unparsable_telemetry s h =
      (flush_if_due-rows now s).0 ∙ sym (append-nil (rows s))
  on_message-rows now (telemetry key sample) s h =
      let row = parse key sample s.context in
      (flush_if_due-rows now (buffer_row row s)).0
      ∙ ap rows (buffer_row-rows row s h)
      ∙ sym (append_assoc s.stored s.buffer (row ∷ []))

  flush_if_due-context :
      (outcome : Outcome R) (now : R) (s : Ingester R)
      → (flush_if_due outcome now s).context ≡ s.context
  unfolding flush_if_due flush reconnect
  flush_if_due-context taken now s = ground arith
  flush_if_due-context (failed reconnected) now s = ground arith

  on_message-context :
      (outcome : Outcome R) (now : R) (msg : Message R) (s : Ingester R)
      → (on_message outcome now msg s).context ≡ context_after msg s.context
  unfolding on_message context_after buffer_row
  on_message-context outcome now (experiment key ctx) s = refl
  on_message-context outcome now unparsable_experiment s = refl
  on_message-context outcome now unparsable_telemetry s = flush_if_due-context outcome now s
  on_message-context outcome now (telemetry key sample) s =
      let s' = buffer_row (parse key sample s.context) s in
      let same : s'.context ≡ s.context = ground arith in flush_if_due-context outcome now s' ∙ same

  -- From a buffer that is shorter than a batch, if the database takes every batch, the stored rows and
  -- then the buffer are what they were and the rows of the messages in order, each with the context
  -- that its channel had at that time.
  pub run-rows :
      (msgs : List (Outcome R × R × Message R)) (s : Ingester R)
      → IsSmall s
      → All IsTaken msgs
      → rows (run msgs s) ≡ rows s ++ joined msgs s.context
  unfolding run joined
  run-rows [] s h all = sym (append-nil (rows s))
  run-rows ((outcome, now, msg) ∷ msgs) s h all =
      let s' = on_message taken now msg s in
      let start : rows s' ++ joined msgs s'.context
          ≡ (rows s ++ row_of msg s.context) ++ joined msgs (context_after msg s.context) =
        rw (on_message-rows now msg s h, on_message-context taken now msg s) refl in
      rw all.0 (
        run-rows msgs s' (on_message-IsSmall taken now msg s h) all.1
        ∙ start
        ∙ append_assoc (rows s) (row_of msg s.context) (joined msgs (context_after msg s.context)))

  -- The context that the last message about a channel gave it.
  unfoldable pub last_context :
      ChannelKey → List (Outcome R × R × Message R) → Option Context → Option Context
  last_context key [] before = before
  last_context key ((outcome, now, experiment k ctx) ∷ msgs) before =
      last_context key msgs (if channel_key_beq k key then ctx else before)
  last_context key ((outcome, now, telemetry k sample) ∷ msgs) before = last_context key msgs before
  last_context key ((outcome, now, unparsable_experiment) ∷ msgs) before =
      last_context key msgs before
  last_context key ((outcome, now, unparsable_telemetry) ∷ msgs) before =
      last_context key msgs before

  last_context-step :
      (key : ChannelKey) (outcome : Outcome R) (now : R) (msg : Message R)
      (msgs : List (Outcome R × R × Message R)) (context : List (ChannelKey × Context))
      → last_context key msgs (lookup key (context_after msg context))
        ≡ last_context key ((outcome, now, msg) ∷ msgs) (lookup key context)
  unfolding last_context context_after
  last_context-step key outcome now (experiment k ctx) msgs context =
      ap (last_context key msgs) (lookup-update_context key k ctx context)
  last_context-step key outcome now (telemetry k sample) msgs context = refl
  last_context-step key outcome now unparsable_experiment msgs context = refl
  last_context-step key outcome now unparsable_telemetry msgs context = refl

  -- The context of a channel is that of the last message about it, across failed batches and
  -- reconnections too.
  pub run-context :
      (key : ChannelKey) (msgs : List (Outcome R × R × Message R)) (s : Ingester R)
      → lookup key (run msgs s).context ≡ last_context key msgs (lookup key s.context)
  unfolding run last_context
  run-context key [] s = refl
  run-context key ((outcome, now, msg) ∷ msgs) s =
      run-context key msgs (on_message outcome now msg s)
      ∙ rw (on_message-context outcome now msg s)
          (last_context-step key outcome now msg msgs s.context)
