-- ===== src/Watchdog/Dedupe.antt =====
-- services/watchdog/src/watchdog/dedupe.py: `EdgeTrigger`, and the keys that the monitors use.
pub mod Edges
use battery_lab_sim.Prelude.{
  ℕ, ◌≡◌, ◌↔◌, String, Bool, true, false, not, ◌&&◌, Option, none, some, List, ◌==◌, Eq, arith,
}
use battery_lab_sim.Prelude.Dict.{lookup, insert, erase}
use text.Mathlib.Text.{◌==◌ as str_eq}
use text.Mathlib.TextEquality.{eq_iff}

-- The tuples ("orchestrator_heartbeat_stale",), ("chassis_watchdog_tripped", id) and so on.
pub data AlertKey : Type 0 where
  heartbeat_stale mass_failure : AlertKey
  chassis_tripped chassis_unreachable : (chassis_id : ℕ) → AlertKey
  chamber_breach : (chamber_id : String) → AlertKey

abbrev pub key_beq : AlertKey → AlertKey → Bool
key_beq heartbeat_stale heartbeat_stale = true
key_beq mass_failure mass_failure = true
key_beq (chassis_tripped i) (chassis_tripped j) = i == j
key_beq (chassis_unreachable i) (chassis_unreachable j) = i == j
key_beq (chamber_breach s) (chamber_breach t) = str_eq s t
key_beq _ _ = false

pub key_beq_iff : (j k : AlertKey) → (key_beq j k ≡ true) ↔ (j ≡ k)
key_beq_iff (chamber_breach s) (chamber_breach t) = ground (arith, eq_iff s t)
key_beq_iff j k = ground arith

instance abbrev pub AlertKey_eq : Eq AlertKey
AlertKey_eq = record { beq = key_beq; beq_iff = key_beq_iff }

-- `_state`: the last condition of each key.
abbrev pub EdgeTrigger : Type 0 → Type 0
EdgeTrigger K = List (K × Bool)

abbrev pub is_true : Option Bool → Bool
is_true (some true) = true
is_true _ = false

module _ {K : Type 0} ⦃e : Eq K⦄ where
  -- True exactly on a rising edge; the condition becomes the key's state.
  unfoldable pub update : K → Bool → EdgeTrigger K → Bool × EdgeTrigger K
  update key condition state =
      (condition && not (is_true (lookup key state)), insert key condition state)

  unfoldable pub reset : K → EdgeTrigger K → EdgeTrigger K
  reset key state = erase key state
