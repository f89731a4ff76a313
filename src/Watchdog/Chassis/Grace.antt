-- ===== src/Watchdog/Chassis/Grace.antt =====
-- What the chassis monitor alerts, and what its startup grace swallows.
use battery_lab_sim.Prelude.{
  ℕ, zero, suc, ◌+◌, ◌≤◌, ◌≡◌, refl, Bool, true, false, Option, none, some, List, [], ◌∷◌, arith,
  ◌==◌, if◌then◌else◌,
}
use battery_lab_sim.Prelude.Dict.{lookup, insert, lookup-insert}
use battery_lab_sim.Watchdog.Dedupe.{
  AlertKey, AlertKey_eq, key_beq, chassis_tripped, chassis_unreachable, EdgeTrigger, is_true,
}
use battery_lab_sim.Watchdog.Chassis.{unreachable_alert, tripped_alert, probe, poll, monitor}

-- The two conditions of an answer, as the monitor tracks them.
abbrev pub is_tripped : Option ℕ → Bool
is_tripped none = false
is_tripped (some status) = status == 1

abbrev pub is_unreachable : Option ℕ → Bool
is_unreachable none = true
is_unreachable (some status) = false

-- After a probe the edges of its chassis hold its two conditions, and no other key changes.
pub probe-edges :
    (in_grace : Bool) (id : ℕ) (answer : Option ℕ) (edge : EdgeTrigger AlertKey) (key : AlertKey)
    → is_true (lookup key (probe in_grace id answer edge).1) ≡ (
        if key_beq (chassis_tripped id) key
        then is_tripped answer
        else if key_beq (chassis_unreachable id) key
        then is_unreachable answer
        else is_true (lookup key edge))
unfolding probe
probe-edges in_grace id none edge key = ground (
  arith,
  lookup-insert (chassis_tripped id) key false (insert (chassis_unreachable id) true edge),
  lookup-insert (chassis_unreachable id) key true edge,
)
probe-edges in_grace id (some status) edge key = ground (
  arith,
  lookup-insert (chassis_tripped id) key (status == 1) (insert (chassis_unreachable id) false edge),
  lookup-insert (chassis_unreachable id) key false edge,
)

-- Outside the grace an answer gives exactly the alert of the condition that it newly shows: none,
-- the chassis out of reach, or its dead-man tripped.
pub probe-alerts :
    (id : ℕ) (answer : Option ℕ) (edge : EdgeTrigger AlertKey)
    → (probe false id answer edge).0 ≡ (
        if is_unreachable answer
        then (if is_true (lookup (chassis_unreachable id) edge)
            then []
            else unreachable_alert id ∷ [])
        else (if is_tripped answer
            then (if is_true (lookup (chassis_tripped id) edge) then [] else tripped_alert id ∷ [])
            else []))
unfolding probe
probe-alerts id none edge = ground arith
probe-alerts id (some status) edge =
    ground (arith, lookup-insert (chassis_unreachable id) (chassis_tripped id) false edge)

-- In the grace nothing is emitted.
pub probe-in_grace :
    (id : ℕ) (answer : Option ℕ) (edge : EdgeTrigger AlertKey) → (probe true id answer edge).0 ≡ []
unfolding probe
probe-in_grace id none edge = ground arith
probe-in_grace id (some status) edge = ground arith

-- One chassis, alone on the bench, with its status register at 1.
abbrev pub tripped_poll : ℕ → List (ℕ × Option ℕ)
tripped_poll id = (id, some 1) ∷ []

abbrev pub always : ℕ → ℕ → List (List (ℕ × Option ℕ))
always id zero = []
always id (suc n) = tripped_poll id ∷ always id n

tripped_silence :
    (id grace count n : ℕ) (edge : EdgeTrigger AlertKey)
    → is_true (lookup (chassis_tripped id) edge) ≡ true
    → monitor grace count (always id n) edge ≡ []
unfolding monitor poll
tripped_silence id grace count zero edge h = refl
tripped_silence id grace count (suc n) edge h = ground (
  arith,
  lookup-insert (chassis_unreachable id) (chassis_tripped id) false edge,
  lookup-insert (chassis_tripped id) (chassis_tripped id) true
      (insert (chassis_unreachable id) false edge),
  tripped_silence id grace (count + 1) n
      (insert (chassis_tripped id) true (insert (chassis_unreachable id) false edge)),
)

-- If the grace is at least one poll, a chassis alone on the bench that is tripped at the first poll
-- and stays tripped is never alerted: the poll in the grace consumes the only rising edge.
pub tripped_at_boot-silent : (id grace n : ℕ) → 1 ≤ grace → monitor grace 0 (always id n) [] ≡ []
unfolding monitor poll lookup
tripped_at_boot-silent id grace zero h = refl
tripped_at_boot-silent id grace (suc n) h =
    let edge : EdgeTrigger AlertKey = insert (chassis_unreachable id) false [] in
    ground (
      arith,
      lookup-insert (chassis_tripped id) (chassis_tripped id) true edge,
      tripped_silence id grace 1 n (insert (chassis_tripped id) true edge),
    )
