-- ===== src/Orchestrator/Bench/Visits.antt =====
-- services/orchestrator/src/orchestrator/main.py: what a tick sweep visits.
use battery_lab_sim.Prelude.{ℕ, ℕ_eq, String, ◌≡◌, refl, ap, List, [], ◌∷◌, All}
use battery_lab_sim.Prelude.Float.{Float}
use battery_lab_sim.Prelude.Dict.{lookup}
use battery_lab_sim.Orchestrator.State.{Env}
use battery_lab_sim.Orchestrator.Sweep.{items_or_empty, is_tickable}
use battery_lab_sim.Orchestrator.Sweep.Groups.{selected, lookup-group}
use battery_lab_sim.Orchestrator.Gather.{tasks_of, gather}
use battery_lab_sim.Orchestrator.Gather.Visits.{
  Visit, Pairwise, recorded, IsNew, IsComplete, gather-IsComplete,
}
use battery_lab_sim.Orchestrator.Gather.Same.{tasks_of-AllLike, gather-Agree}
use battery_lab_sim.Orchestrator.Bench.Ticked.{IsTicking, gather-IsTicking}
use battery_lab_sim.Orchestrator.Bench.{Bench, tick_tracked, tick_plan, tick_running}

tasks_of-IsNew :
    {A : Type 0} (S : Type 0) (groups : List (ℕ × List A)) → All (IsNew {S = S}) (tasks_of groups)
unfolding tasks_of
tasks_of-IsNew S [] = tt
tasks_of-IsNew S (g ∷ groups) = (refl, tasks_of-IsNew S groups)

module _ {R : Type 0} ⦃fl : Float R⦄ (env : Env R) (known : List ℕ) where
  -- The plan of the chassis `c`, what each chassis ticks, and that the sweep leaves the same bench.
  abbrev pub TicksPlan : List ℕ → ℕ → Bench R → Type 0
  TicksPlan order c b =
      let plan = tasks_of (tick_plan known b) in
      let seen = gather (recorded (tick_tracked env)) order plan b in
      (items_or_empty (lookup c (tick_plan known b))
        ≡ selected (λ entry. is_tickable known entry.1) (λ entry. entry.1.chassis_id)
            (λ entry. entry.0) c b.experiments)
      × Pairwise IsComplete plan seen.0
      × All (IsTicking env) seen.0
      × (seen.1.state ≡ (tick_running env known order b).state)
      × (seen.1.experiments ≡ (tick_running env known order b).experiments)

  -- In a tick sweep, whatever calls fail and in whatever order the chassis take their turns: the plan of
  -- a chassis is the running experiments on it, if it is connected, in the order of the dict; the chassis
  -- visits all of its plan once and in order, unless a visit raises, and then all up to that one; each
  -- visit that does not raise runs one tick on the experiment that stands under its key then, and stores
  -- what the tick left, also if that raised an `OSError`, which never ends a chassis' part; and the sweep
  -- leaves the bench that these visits leave.
  pub tick_running-visits : (order : List ℕ) (c : ℕ) (b : Bench R) → TicksPlan order c b
  unfolding tick_running
  tick_running-visits order c b =
      let plan = tick_plan known b in
      let agree =
        gather-Agree (tick_tracked env) order (tasks_of plan) (tasks_of plan) b
          (tasks_of-AllLike (Unit {0}) (Visit String (Bench R)) plan) in
      (
        lookup-group (λ entry. is_tickable known entry.1) (λ entry. entry.1.chassis_id)
            (λ entry. entry.0) c b.experiments [],
        gather-IsComplete (tick_tracked env) order (tasks_of plan) b
            (tasks_of-IsNew (Bench R) plan),
        gather-IsTicking env known order b,
        ap (λ (z : Bench R). z.state) agree.1,
        ap (λ (z : Bench R). z.experiments) agree.1,
      )
