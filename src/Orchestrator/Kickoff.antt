-- ===== src/Orchestrator/Kickoff.antt =====
-- services/orchestrator/src/orchestrator/main.py: the kickoff of one pending experiment, the poll that
-- finds it, and what keeps the cyclers alive.
pub mod Orphan
use battery_lab_sim.Prelude.{
  ℕ, String, Bool, true, false, not, ◌&&◌, Option, none, some, List, [], ◌∷◌, ◌==◌, if◌then◌else◌,
  any,
}
use battery_lab_sim.Prelude.Float.{Float}
use battery_lab_sim.Schedule.{Schedule}
use battery_lab_sim.Orchestrator.State.{
  Status, pending, completed, failed, Experiment, Env, Result, Action, pure, modify_exp, catch_os,
  ◌>>=◌, ◌>>◌,
}
use battery_lab_sim.Orchestrator.Executor.{step_one_tick, kickoff}
use battery_lab_sim.Orchestrator.Build.{ExperimentRow, build_experiment, is_running}
use battery_lab_sim.Orchestrator.Resume.{check_chassis_reachable}
use text.Mathlib.Text.{◌==◌ as str_eq}

module _ {R : Type 0} ⦃fl : Float R⦄ (env : Env R) where
  -- `try: await ex.kickoff(…) except OSError: continue`; true if the experiment is tracked.
  unfoldable pub kickoff_built : Option (Experiment R) → Action R Bool
  unfolding kickoff
  kickoff_built none = pure false
  kickoff_built (some exp) = do
    modify_exp (λ _. exp)
    catch_os (kickoff env >> pure true) (pure false)

  -- The body of `kickoff_one_chassis` for one row.
  unfoldable pub kickoff_record :
      (String → Result (Schedule R)) → List ℕ → ExperimentRow → Action R Bool
  unfolding check_chassis_reachable build_experiment kickoff_built
  kickoff_record schedules known rec = do
    reachable ← check_chassis_reachable env known rec
    if not reachable
        then pure false
        else do built ← build_experiment env schedules rec; kickoff_built built

  -- One experiment of `tick_one_chassis`: an `OSError` is only logged.
  unfoldable pub tick : Action R (Unit {0})
  unfolding step_one_tick
  tick = catch_os (step_one_tick env) (pure tt)

abbrev is_pending : Status → Bool
is_pending pending = true
is_pending _ = false

-- `_poll_pending`: the pending rows that are not yet tracked.
unfoldable pub poll_pending : List String → List ExperimentRow → List ExperimentRow
poll_pending known [] = []
poll_pending known (row ∷ rows) =
    let rest = poll_pending known rows in
    if is_pending row.status && not (any (str_eq row.id) known) then row ∷ rest else rest

abbrev pub is_terminal : Status → Bool
is_terminal completed = true
is_terminal failed = true
is_terminal _ = false
