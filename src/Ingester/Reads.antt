-- ===== src/Ingester/Reads.antt =====
-- services/ingester/src/ingester/main.py: _parse_context, _parse, and the loop on the topics and payloads as
-- the broker delivers them. A text is the list of its code points or bytes. Python's `int` of a text, `json`,
-- and what `float`, `int`, `str` and `datetime` do with a value of JSON are an interface.
pub mod Stopped
use battery_lab_sim.Prelude.{
  ℕ, String, Bool, true, false, ◌&&◌, Option, none, some, List, [], ◌∷◌, ◌++◌, ◌==◌, if◌then◌else◌,
}
use battery_lab_sim.Prelude.Int.{ℤ, pos}
use battery_lab_sim.Prelude.Attempt.{
  Failure, os_error, postgres_error, other_error, Attempt, returned, raised,
}
use battery_lab_sim.Prelude.Float.{Float}
use battery_lab_sim.Hosts.{Text, is_empty, split}
use battery_lab_sim.Hosts.Texts.{join}
use battery_lab_sim.Ingester.{
  ChannelKey, Context, Sample, Message, experiment, telemetry, unparsable_experiment,
  unparsable_telemetry, Outcome, Ingester, reconnect, on_message,
}

-- What a conversion does inside the `try`: it gives a value, or raises what the `except` catches
-- (KeyError, ValueError), or raises something else.
pub data Parse {ℓ} (A : Type ℓ) : Type ℓ where
  parsed : A → Parse A
  refused : Parse A
  uncaught : Failure → Parse A

infixl 20 ◌>>=◌
abbrev pub ◌>>=◌ : {A B : Type 0} → Parse A → (A → Parse B) → Parse B
parsed a >>= f = f a
refused >>= f = refused
uncaught e >>= f = uncaught e

-- `json.loads`: no JSON, which is a ValueError, a value that is no object, or an object with its fields.
pub data JsonValue (V : Type 0) : Type 0 where
  not_json not_object : JsonValue V
  object : (String → Option V) → JsonValue V

pub record Python (R V : Type 0) : Type 0 where
  pub int : Text → Option ℤ
  pub loads : Text → JsonValue V
  pub str_of : V → String
  pub is_none : V → Bool
  pub int_of : V → Parse ℤ
  pub float_of : V → Parse R
  pub timestamp : R → Parse R

-- A message as it comes: how the database answers a batch then, the time, and the time of the new
-- connection if there is an error.
pub record Delivery (R : Type 0) : Type 0 where
  pub outcome : Outcome R
  pub now : R
  pub reconnected : R
  pub topic : Text
  pub payload : Text

-- The loop goes on, or an exception that it does not catch has ended it.
pub data Process (R : Type 0) : Type 0 where
  running stopped : Ingester R → Process R

abbrev pub experiment_root : Text
experiment_root = b'e' ∷ b'x' ∷ b'p' ∷ b'e' ∷ b'r' ∷ b'i' ∷ b'm' ∷ b'e' ∷ b'n' ∷ b't' ∷ []

abbrev pub telemetry_root : Text
telemetry_root = b't' ∷ b'e' ∷ b'l' ∷ b'e' ∷ b'm' ∷ b'e' ∷ b't' ∷ b'r' ∷ b'y' ∷ []

-- `s.startswith(prefix)`
unfoldable pub starts_with : Text → Text → Bool
starts_with [] s = true
starts_with (c ∷ prefix) [] = false
starts_with (c ∷ prefix) (d ∷ s) = c == d && starts_with prefix s

module _ {R V : Type 0} (py : Python R V) where
  -- `(int(parts[1]), int(parts[2]))`
  abbrev pub key_of_ids : Option ℤ → Option ℤ → Option ChannelKey
  key_of_ids (some chassis) (some channel) =
      some (record { chassis_id = chassis; channel_idx = channel })
  key_of_ids none channel = none
  key_of_ids (some chassis) none = none

  abbrev pub key_of_parts : List Text → Option ChannelKey
  key_of_parts (root ∷ chassis ∷ channel ∷ []) = key_of_ids (py.int chassis) (py.int channel)
  key_of_parts _ = none

  unfoldable pub key_of_topic : Text → Option ChannelKey
  unfolding split
  key_of_topic topic = key_of_parts (split b'/' topic)

  -- `str(msg.get(name, ""))`
  abbrev pub text_field : Option V → String
  text_field none = ""
  text_field (some v) = py.str_of v

  -- `_parse_context`, from the payload on
  abbrev pub loaded_context : ChannelKey → JsonValue V → Attempt (Message R)
  loaded_context key not_json = returned unparsable_experiment
  loaded_context key not_object = raised other_error
  loaded_context key (object fields) = returned (
      experiment key (
        some (record {
          schedule_id = text_field (fields "schedule_id");
          step_name = text_field (fields "step_name");
        })))

  unfoldable pub context_message : ChannelKey → Text → Attempt (Message R)
  context_message key payload =
      if is_empty payload
      then returned (experiment key none)
      else loaded_context key (py.loads payload)

  -- `msg[name]`
  abbrev pub required : Option V → Parse V
  required none = refused
  required (some v) = parsed v

  -- `int(msg.get("cyc", 0))`
  abbrev pub cycle_field : Option V → Parse ℤ
  cycle_field none = parsed (pos 0)
  cycle_field (some v) = py.int_of v

  abbrev pub as_optional : Parse R → Parse (Option R)
  as_optional p = do x ← p; parsed (some x)

  -- `float(msg[name]) if msg.get(name) is not None else None`
  abbrev pub float_field : Option V → Parse (Option R)
  float_field none = parsed none
  float_field (some v) = if py.is_none v then parsed none else as_optional (py.float_of v)

  -- The columns of the row that the payload gives, in the order in which `_parse` computes them.
  unfoldable pub read_sample : (String → Option V) → Parse (Sample R)
  read_sample fields = do
    t ← required (fields "t")
    epoch_s ← py.float_of t
    time ← py.timestamp epoch_s
    cycle ← cycle_field (fields "cyc")
    v ← float_field (fields "v")
    i ← float_field (fields "i")
    tc ← float_field (fields "tc")
    soc ← float_field (fields "soc")
    parsed (record {
      time = time;
      cycle_index = cycle;
      voltage_v = v;
      current_a = i;
      temperature_c = tc;
      soc_est = soc;
    })

  abbrev pub sample_message : ChannelKey → Parse (Sample R) → Attempt (Message R)
  sample_message key (parsed sample) = returned (telemetry key sample)
  sample_message key refused = returned unparsable_telemetry
  sample_message key (uncaught e) = raised e

  -- `_parse`, from the payload on, without the join
  abbrev pub loaded_sample : ChannelKey → JsonValue V → Attempt (Message R)
  loaded_sample key not_json = returned unparsable_telemetry
  loaded_sample key not_object = raised other_error
  loaded_sample key (object fields) = sample_message key (read_sample fields)

  unfoldable pub telemetry_message : ChannelKey → Text → Attempt (Message R)
  unfolding read_sample
  telemetry_message key payload = loaded_sample key (py.loads payload)

  unfoldable pub read_context : Option ChannelKey → Text → Attempt (Message R)
  unfolding context_message
  read_context none payload = returned unparsable_experiment
  read_context (some key) payload = context_message key payload

  unfoldable pub read_telemetry : Option ChannelKey → Text → Attempt (Message R)
  unfolding telemetry_message
  read_telemetry none payload = returned unparsable_telemetry
  read_telemetry (some key) payload = telemetry_message key payload

  -- `topic.startswith("experiment/")`, and the two parsers
  unfoldable pub read_message : Text → Text → Attempt (Message R)
  unfolding starts_with key_of_topic read_context read_telemetry
  read_message topic payload =
      if starts_with (experiment_root ++ b'/' ∷ []) topic
      then read_context (key_of_topic topic) payload
      else read_telemetry (key_of_topic topic) payload

  module _ ⦃fl : Float R⦄ where
    -- The body of the loop and its handler: an OSError of the parser reconnects, as one of the database does.
    unfoldable pub on_read : Delivery R → Attempt (Message R) → Ingester R → Process R
    unfolding on_message reconnect
    on_read d (returned msg) s = running (on_message d.outcome d.now msg s)
    on_read d (raised os_error) s = running (reconnect d.reconnected s)
    on_read d (raised postgres_error) s = running (reconnect d.reconnected s)
    on_read d (raised other_error) s = stopped s

    unfoldable pub on_delivery : Delivery R → Ingester R → Process R
    unfolding read_message on_read
    on_delivery d s = on_read d (read_message d.topic d.payload) s

    unfoldable pub serve_all : List (Delivery R) → Ingester R → Process R
    unfolding on_delivery
    serve_all [] s = running s
    serve_all (d ∷ ds) s = elim (on_delivery d s) [
      | running s' ↦ serve_all ds s'
      | stopped s' ↦ stopped s'
    ]
