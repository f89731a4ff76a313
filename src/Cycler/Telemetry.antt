-- ===== src/Cycler/Telemetry.antt =====
-- services/cycler/src/cycler/telemetry.py: the telemetry of each channel, and the retained state that is
-- published when it changes; ambient.py: the last ambient temperature. A publish returns or raises
-- `MqttError`; one of QoS 1 that raises may have reached the broker all the same, with its
-- acknowledgement lost.
pub mod Synced
pub mod Retained
use battery_lab_sim.Prelude.{
  ℕ, ℕ_eq, Bool, true, false, ◌&&◌, Option, none, some, List, [], ◌∷◌, ◌++◌, ◌==◌, map,
  if◌then◌else◌,
}
use battery_lab_sim.Prelude.Dict.{lookup, insert}
use battery_lab_sim.Prelude.Float.{Float}
use battery_lab_sim.Models.{ChannelMode, ErrorCode, error_value}
use battery_lab_sim.Modbus.{mode_value}
use battery_lab_sim.Cycler.Channel.{Channel, read_state}

-- (mode, latched_error)
pub record StateKey : Type 0 where
  pub mode : ChannelMode
  pub error : ErrorCode

abbrev pub state_beq : StateKey → StateKey → Bool
state_beq a b = mode_value a.mode == mode_value b.mode && error_value a.error == error_value b.error

abbrev pub state_key : {R : Type 0} → Channel R → StateKey
state_key ch = record { mode = ch.mode; error = ch.latched_error }

pub record TelemetryPayload (R : Type 0) : Type 0 where
  pub t : R
  pub v : R
  pub i : R
  pub tc : R
  pub soc : R
  pub soh : R
  pub cyc : ℕ
  pub mode : ChannelMode
  pub err : ℕ

pub record StatePayload (R : Type 0) : Type 0 where
  pub t : R
  pub state : StateKey

-- `last_state`, what was sent on the telemetry topics, and the broker's retained states by channel.
pub record Publisher (R : Type 0) : Type 0 where
  pub last_state : List (ℕ × StateKey)
  pub sent : List (ℕ × TelemetryPayload R)
  pub retained : List (ℕ × StatePayload R)

-- A publish of QoS 1: the broker has it and said so, it raised and the broker does not have it, or it
-- raised and the broker has it.
pub data Delivered : Type 0 where
  acknowledged undelivered unacknowledged : Delivered

-- A channel's part of a turn: the channel when its payload is made and after that was published, and
-- what becomes of the two publishes.
pub record Sampled (R : Type 0) : Type 0 where
  pub before : Channel R
  pub after : Channel R
  pub telemetry_ok : Bool
  pub state_publish : Delivered

-- `cur != last_state.get(ch.idx)`
unfoldable pub has_changed : StateKey → Option StateKey → Bool
has_changed cur none = true
has_changed cur (some last) = if state_beq cur last then false else true

-- `last_state` at the start
unfoldable pub first_states : {R : Type 0} → List (Channel R) → List (ℕ × StateKey)
first_states channels = map (λ ch. (ch.idx, state_key ch)) channels

module _ {R : Type 0} where
  abbrev pub retain : R → ℕ → StateKey → Publisher R → Publisher R
  retain now idx cur p = record p {
    retained = insert idx (record { t = now; state = cur }) p.retained;
  }

  -- `client.publish(state_topic, …)` and `last_state[ch.idx] = cur`: whether the turn goes on, and what
  -- it leaves.
  abbrev pub publish_changed : Delivered → R → ℕ → StateKey → Publisher R → Bool × Publisher R
  publish_changed acknowledged now idx cur p =
      (true, record (retain now idx cur p) { last_state = insert idx cur p.last_state })
  publish_changed undelivered now idx cur p = (false, p)
  publish_changed unacknowledged now idx cur p = (false, retain now idx cur p)

module _ {R : Type 0} ⦃fl : Float R⦄ (round : R → ℕ → R) where
  unfoldable pub telemetry_payload : R → Channel R → TelemetryPayload R
  unfolding read_state error_value
  telemetry_payload now ch =
      let s = read_state ch in
      record {
        t = now;
        v = round s.voltage_v 4;
        i = round s.current_a 4;
        tc = round s.temperature_c 2;
        soc = round s.soc 4;
        soh = round s.soh 4;
        cyc = ch.cycle_index;
        mode = ch.mode;
        err = error_value ch.latched_error;
      }

  -- The retained state, on a transition.
  unfoldable pub publish_state : R → Sampled R → Publisher R → Bool × Publisher R
  unfolding has_changed lookup insert
  publish_state now s p =
      if has_changed (state_key s.after) (lookup s.before.idx p.last_state)
      then publish_changed s.state_publish now s.before.idx (state_key s.after) p
      else (true, p)

  unfoldable pub publish_channel : R → Sampled R → Publisher R → Bool × Publisher R
  unfolding telemetry_payload publish_state
  publish_channel now s p =
      if s.telemetry_ok
      then publish_state now s
          (record p { sent = p.sent ++ (s.before.idx, telemetry_payload now s.before) ∷ [] })
      else (false, p)

  -- A turn over the channels, which an `MqttError` ends.
  unfoldable pub publish_turn : R → List (Sampled R) → Publisher R → Publisher R
  unfolding publish_channel
  publish_turn now [] p = p
  publish_turn now (s ∷ ss) p =
      let (go_on, p') = publish_channel now s p in if go_on then publish_turn now ss p' else p'

  -- The turns, across reconnects: `last_state` lives outside of the connection.
  unfoldable pub publish_turns : List (R × List (Sampled R)) → Publisher R → Publisher R
  unfolding publish_turn
  publish_turns [] p = p
  publish_turns ((now, ss) ∷ turns) p = publish_turns turns (publish_turn now ss p)

-- `AmbientState`
pub record AmbientState (R : Type 0) : Type 0 where
  pub value_c : R
  pub has_received : Bool

module _ {R : Type 0} where
  unfoldable pub new_ambient : R → AmbientState R
  new_ambient default_c = record { value_c = default_c; has_received = false }

  unfoldable pub update_ambient : R → AmbientState R → AmbientState R
  update_ambient c a = record { value_c = c; has_received = true }

  -- The loop of `ambient_subscriber` over its messages; `none` is one that does not parse.
  unfoldable pub subscribe_ambient : List (Option R) → AmbientState R → AmbientState R
  unfolding update_ambient
  subscribe_ambient [] a = a
  subscribe_ambient (none ∷ msgs) a = subscribe_ambient msgs a
  subscribe_ambient (some c ∷ msgs) a = subscribe_ambient msgs (update_ambient c a)
