-- ===== src/Examples/IngesterRuns.antt =====
-- The theorems on the ingester at concrete inputs.
use battery_lab_sim.Prelude.{
  ◌≡◌, refl, some, none, List, [], ◌∷◌, arith, ◌+◌, ◌/◌, ◌%◌, ◌==◌, ltb, if◌then◌else◌, false,
}
use battery_lab_sim.Prelude.Int.{ℤ, pos, negsuc}
use battery_lab_sim.Prelude.Float.{fixed_point}
use battery_lab_sim.Prelude.Dict.{lookup}
use battery_lab_sim.Ingester.{
  ChannelKey, ChannelKey_eq, Context, Sample, Outcome, taken, failed, Message, experiment,
  telemetry, Ingester, run,
}
use battery_lab_sim.Ingester.Batches.{
  IsSmall, joined, last_context, rows, run-IsSmall, run-rows, run-context,
}
use battery_lab_sim.Hosts.{Text, split}
use battery_lab_sim.Ingester.Reads.{
  Delivery, Python, JsonValue, not_json, not_object, object, parsed, stopped, experiment_root,
  telemetry_root, read_message, context_message, telemetry_message, key_of_topic, serve_all,
}
use battery_lab_sim.Ingester.Reads.Stopped.{
  IsRead, topic_of, messages_of, read_message-topic_of, serve_all-stops,
}
use battery_lab_sim.Examples.HostsRuns.{decimal}
use battery_lab_sim.Examples.Samples.{whole}

abbrev channel : ChannelKey
channel = record { chassis_id = pos 1; channel_idx = pos 3 }

abbrev charging : Context
charging = record { schedule_id = "formation"; step_name = "charge" }

abbrev resting : Context
resting = record { schedule_id = "formation"; step_name = "rest" }

abbrev sample : ℤ → Sample ℤ
sample t = record {
  time = t;
  cycle_index = pos 0;
  voltage_v = some (whole 4);
  current_a = none;
  temperature_c = none;
  soc_est = none;
}

abbrev empty : Ingester ℤ
empty = record {
  context = [];
  buffer = [];
  last_flush = whole 0;
  drops = 0;
  stored = [];
  lost = [];
}

abbrev messages : Outcome ℤ → List (Outcome ℤ × ℤ × Message ℤ)
messages o =
    (o, whole 1, telemetry channel (sample (whole 1)))
    ∷ (o, whole 2, experiment channel (some charging))
    ∷ (o, whole 3, telemetry channel (sample (whole 3)))
    ∷ (o, whole 4, experiment channel (some resting))
    ∷ []

run-IsSmall_example : IsSmall (run (messages (failed (whole 5))) empty)
run-IsSmall_example = run-IsSmall (messages (failed (whole 5))) empty (omega arith, refl)

run-rows_example : rows (run (messages taken) empty) ≡ joined (messages taken) []
run-rows_example =
    run-rows (messages taken) empty (omega arith, refl) (refl, (refl, (refl, (refl, tt))))

run-context_example :
    lookup channel (run (messages (failed (whole 5))) empty).context ≡ some resting
unfolding last_context
run-context_example = run-context channel (messages (failed (whole 5))) empty

-- The decimal digits of a number below 100.
abbrev str : ℤ → Text
str (pos n) = if ltb n 10 then (b'0' + n) ∷ [] else (b'0' + n / 10) ∷ (b'0' + n % 10) ∷ []
str (negsuc n) = b'-' ∷ []

-- A text that starts with a bracket is an array, any other an object with the value 1 in every field.
abbrev loads : Text → JsonValue ℤ
loads [] = not_json
loads (c ∷ s) = if c == b'[' then not_object else object (λ name. some (whole 1))

abbrev python : Python ℤ ℤ
python = record {
  int = decimal;
  loads = loads;
  str_of = λ v. "1";
  is_none = λ v. false;
  int_of = λ v. parsed v;
  float_of = λ v. parsed v;
  timestamp = λ t. parsed t;
}

abbrev channel_12 : ChannelKey
channel_12 = record { chassis_id = pos 1; channel_idx = pos 12 }

abbrev braces : Text
braces = b'{' ∷ b'}' ∷ []

abbrev brackets : Text
brackets = b'[' ∷ b']' ∷ []

read_message-topic_of_example :
    (read_message python (topic_of str experiment_root channel_12) braces
      ≡ context_message python channel_12 braces)
    × (read_message python (topic_of str telemetry_root channel_12) braces
        ≡ telemetry_message python channel_12 braces)
read_message-topic_of_example =
    read_message-topic_of python str channel_12 braces refl refl (ground arith)

abbrev delivery : Text → Delivery ℤ
delivery payload = record {
  outcome = taken;
  now = whole 1;
  reconnected = whole 2;
  topic = b'c' ∷ b'/' ∷ b'1' ∷ b'/' ∷ b'2' ∷ [];
  payload = payload;
}

delivery_key :
    key_of_topic python (delivery brackets).topic
    ≡ some (record { chassis_id = pos 1; channel_idx = pos 2 })
unfolding key_of_topic split
delivery_key = refl

delivery-IsRead : IsRead python (delivery braces)
unfolding read_message key_of_topic telemetry_message
delivery-IsRead = (
  telemetry (record { chassis_id = pos 1; channel_idx = pos 2 })
      (record {
        time = whole 1;
        cycle_index = whole 1;
        voltage_v = some (whole 1);
        current_a = some (whole 1);
        temperature_c = some (whole 1);
        soc_est = some (whole 1);
      }),
  refl,
)

serve_all-stops_example :
    serve_all python (delivery braces ∷ delivery brackets ∷ delivery braces ∷ []) empty
    ≡ stopped (run (messages_of python (delivery braces ∷ [])) empty)
serve_all-stops_example =
    serve_all-stops python (delivery braces ∷ []) (delivery braces ∷ []) (delivery brackets)
      (record { chassis_id = pos 1; channel_idx = pos 2 }) empty (delivery-IsRead, tt) delivery_key
      refl refl
