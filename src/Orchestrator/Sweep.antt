-- ===== src/Orchestrator/Sweep.antt =====
-- services/orchestrator/src/orchestrator/main.py and channel_keepalive.py: the sweeps, which sort what
-- they visit by chassis and run the chassis at the same time, each on its own connection, and one
-- chassis in order.
pub mod Groups
use battery_lab_sim.Prelude.{
  ℕ, ◌+◌, ℕ_eq, String, Bool, true, false, ◌&&◌, Option, none, some, List, [], ◌∷◌, ◌++◌, ◌==◌, any,
  if◌then◌else◌,
}
use battery_lab_sim.Prelude.Dict.{lookup, insert}
use battery_lab_sim.Orchestrator.Client.{Write, kick_channel}
use battery_lab_sim.Orchestrator.State.{Experiment}
use battery_lab_sim.Orchestrator.Build.{ExperimentRow, is_running}

abbrev pub items_or_empty : {B : Type 0} → Option (List B) → List B
items_or_empty none = []
items_or_empty (some items) = items

module _ {A B : Type 0} where
  -- `by_chassis.setdefault(chassis, []).append(item)` for what is kept
  unfoldable pub group :
      (A → Bool) → (A → ℕ) → (A → B) → List A → List (ℕ × List B) → List (ℕ × List B)
  unfolding lookup insert
  group keep chassis item [] groups = groups
  group keep chassis item (a ∷ as') groups =
      let c = chassis a in
      let grown = insert c (items_or_empty (lookup c groups) ++ item a ∷ []) groups in
      group keep chassis item as' (if keep a then grown else groups)

abbrev pub is_known : List ℕ → ℕ → Bool
is_known known chassis = any (λ c. c == chassis) known

-- The running experiments with a connected chassis.
abbrev pub is_tickable : {R : Type 0} → List ℕ → Experiment R → Bool
is_tickable known exp = is_running exp.status && is_known known exp.chassis_id

unfoldable pub tick_groups :
    {R : Type 0} → List ℕ → List (Experiment R) → List (ℕ × List (Experiment R))
unfolding group
tick_groups known exps = group (is_tickable known) (λ exp. exp.chassis_id) (λ exp. exp) exps []

unfoldable pub keepalive_groups : {R : Type 0} → List ℕ → List (Experiment R) → List (ℕ × List ℕ)
unfolding group
keepalive_groups known exps =
    group (is_tickable known) (λ exp. exp.chassis_id) (λ exp. exp.channel_idx) exps []

unfoldable pub kickoff_groups : List ExperimentRow → List (ℕ × List ExperimentRow)
unfolding group
kickoff_groups rows = group (λ row. true) (λ row. row.chassis_id) (λ row. row) rows []

unfoldable pub resume_groups : List ExperimentRow → List (ℕ × List ExperimentRow)
unfolding group
resume_groups rows =
    group (λ row. is_running row.status) (λ row. row.chassis_id) (λ row. row) rows []

-- The connection of one chassis: the calls made, and the writes that arrived.
pub record Connection : Type 0 where
  pub calls : ℕ
  pub writes : List Write

-- `_kick_chassis_channels`: a kick that fails is only logged.
unfoldable pub kick_chassis_channels : (ℕ → Bool) → List ℕ → Connection → Connection
kick_chassis_channels fails [] s = s
kick_chassis_channels fails (idx ∷ idxs) s = kick_chassis_channels fails idxs (
    if fails s.calls
    then record s { calls = s.calls + 1 }
    else (record s { calls = s.calls + 1; writes = s.writes ++ kick_channel idx ∷ [] }))
