-- ===== src/Ingester.antt =====
-- services/ingester/src/ingester/main.py: the consumer of MQTT messages, which joins telemetry with the
-- context of its channel and writes it in batches. A message is taken as it is read: one that is refused is
-- `unparsable`, and the row's columns from the payload are one value. Reads has the reading itself.
pub mod Batches
pub mod Reads
use battery_lab_sim.Prelude.{
  ℕ, ◌+◌, String, Bool, true, false, ◌&&◌, ◌||◌, Option, none, some, List, [], ◌∷◌, ◌++◌, ◌==◌, ◌≡◌,
  ◌↔◌, leb, arith, if◌then◌else◌, length, Eq,
}
use battery_lab_sim.Prelude.Dict.{lookup, insert, erase}
use battery_lab_sim.Prelude.Int.{ℤ, pos, negsuc}
use battery_lab_sim.Prelude.Float.{Float}

abbrev pub batch_max : ℕ
batch_max = 5000

abbrev pub buffer_hard_cap : ℕ
buffer_hard_cap = 50000

-- The key (chassis_id, channel_idx) of a channel.
pub record ChannelKey : Type 0 where
  pub chassis_id : ℤ
  pub channel_idx : ℤ

abbrev int_beq : ℤ → ℤ → Bool
int_beq (pos a) (pos b) = a == b
int_beq (negsuc a) (negsuc b) = a == b
int_beq (pos a) (negsuc b) = false
int_beq (negsuc a) (pos b) = false

int_beq_iff : (a b : ℤ) → (int_beq a b ≡ true) ↔ (a ≡ b)
int_beq_iff (pos a) (pos b) = ground arith
int_beq_iff (negsuc a) (negsuc b) = ground arith
int_beq_iff (pos a) (negsuc b) = ground arith
int_beq_iff (negsuc a) (pos b) = ground arith

abbrev pub channel_key_beq : ChannelKey → ChannelKey → Bool
channel_key_beq j k = int_beq j.chassis_id k.chassis_id && int_beq j.channel_idx k.channel_idx

pub channel_key_beq_iff : (j k : ChannelKey) → (channel_key_beq j k ≡ true) ↔ (j ≡ k)
channel_key_beq_iff j k = ground arith

instance abbrev pub ChannelKey_eq : Eq ChannelKey
ChannelKey_eq = record { beq = channel_key_beq; beq_iff = channel_key_beq_iff }

pub record Context : Type 0 where
  pub schedule_id : String
  pub step_name : String

-- The columns of a row that its payload gives.
pub record Sample (R : Type 0) : Type 0 where
  pub time : R
  pub cycle_index : ℤ
  pub voltage_v : Option R
  pub current_a : Option R
  pub temperature_c : Option R
  pub soc_est : Option R

pub record Row (R : Type 0) : Type 0 where
  pub key : ChannelKey
  pub context : Context
  pub sample : Sample R

-- A message of `experiment/+/+`, with `none` for an empty payload, or of `telemetry/+/+`.
pub data Message (R : Type 0) : Type 0 where
  experiment : ChannelKey → Option Context → Message R
  telemetry : ChannelKey → Sample R → Message R
  unparsable_experiment unparsable_telemetry : Message R

-- How the database answers a batch: it takes it, or fails, and the loop has a new connection at the time
-- `reconnected`.
pub data Outcome (R : Type 0) : Type 0 where
  taken : Outcome R
  failed : (reconnected : R) → Outcome R

-- The state of the loop, with the rows that the database has taken and those of failed batches.
pub record Ingester (R : Type 0) : Type 0 where
  pub context : List (ChannelKey × Context)
  pub buffer : List (Row R)
  pub last_flush : R
  pub drops : ℕ
  pub stored : List (Row R)
  pub lost : List (Row R)

abbrev pub not_empty {ℓ} : {A : Type ℓ} → List A → Bool
not_empty [] = false
not_empty (x ∷ xs) = true

-- `ctx.get("schedule_id", "")` and `ctx.get("step_name", "")`
unfoldable pub context_or_empty : Option Context → Context
context_or_empty none = record { schedule_id = ""; step_name = "" }
context_or_empty (some ctx) = ctx

unfoldable pub update_context :
    ChannelKey → Option Context → List (ChannelKey × Context) → List (ChannelKey × Context)
unfolding insert erase
update_context key none context = erase key context
update_context key (some ctx) context = insert key ctx context

module _ {R : Type 0} where
  -- `_parse`, the join
  unfoldable pub parse : ChannelKey → Sample R → List (ChannelKey × Context) → Row R
  unfolding lookup context_or_empty
  parse key sample context = record {
    key = key;
    context = context_or_empty (lookup key context);
    sample = sample;
  }

  abbrev pub drop_first : List (Row R) → List (Row R)
  drop_first [] = []
  drop_first (row ∷ rows) = rows

  -- A full buffer drops its oldest row.
  unfoldable pub buffer_row : Row R → Ingester R → Ingester R
  buffer_row row s =
      if leb buffer_hard_cap (length s.buffer)
      then record s { buffer = drop_first s.buffer ++ row ∷ []; drops = s.drops + 1 }
      else record s { buffer = s.buffer ++ row ∷ [] }

  -- What a reconnect keeps: `context`. The buffer is a new one.
  unfoldable pub reconnect : R → Ingester R → Ingester R
  reconnect now s = record s { buffer = []; last_flush = now; drops = 0; lost = s.lost ++ s.buffer }

module _ {R : Type 0} ⦃fl : Float R⦄ where
  -- `len(buffer) >= BATCH_MAX or (buffer and now - last_flush > BATCH_MAX_AGE_S)`
  unfoldable pub is_due : R → Ingester R → Bool
  is_due now s =
      leb batch_max (length s.buffer)
      || not_empty s.buffer && fl.lt (fl.lit 1 0) (fl.sub now s.last_flush)

  -- `flush` of the batch; if the database fails, the batch, which has left the buffer, is lost and the loop reconnects.
  unfoldable pub flush : Outcome R → R → Ingester R → Ingester R
  unfolding reconnect
  flush taken now s = record s { buffer = []; last_flush = now; stored = s.stored ++ s.buffer }
  flush (failed reconnected) now s =
      reconnect reconnected (record s { buffer = []; lost = s.lost ++ s.buffer })

  unfoldable pub flush_if_due : Outcome R → R → Ingester R → Ingester R
  unfolding is_due flush
  flush_if_due outcome now s = if is_due now s then flush outcome now s else s

  -- The body of the loop over the messages.
  unfoldable pub on_message : Outcome R → R → Message R → Ingester R → Ingester R
  unfolding update_context parse buffer_row flush_if_due
  on_message outcome now (experiment key ctx) s = record s {
    context = update_context key ctx s.context;
  }
  on_message outcome now unparsable_experiment s = s
  on_message outcome now unparsable_telemetry s = flush_if_due outcome now s
  on_message outcome now (telemetry key sample) s =
      flush_if_due outcome now (buffer_row (parse key sample s.context) s)

  -- Messages with the time of each and how the database answers a batch then.
  unfoldable pub run : List (Outcome R × R × Message R) → Ingester R → Ingester R
  unfolding on_message
  run [] s = s
  run ((outcome, now, msg) ∷ msgs) s = run msgs (on_message outcome now msg s)
