-- ===== src/Orchestrator/State.antt =====
-- The state that an executor coroutine reads and writes for one experiment: the mutable `Experiment`,
-- the database, the Modbus writes, the MQTT queues. What the outside answers is the environment
-- `Env`, by the number of the call. A raise keeps all that was written before it.
use battery_lab_sim.Prelude.{
  ℕ, String, String_eq, Bool, Option, none, some, List, [], ◌∷◌, ◌++◌, ltb, if◌then◌else◌, length,
}
use battery_lab_sim.Orchestrator.Client.{Write}
use battery_lab_sim.Schedule.{Schedule}

pub data Exn : Type 0 where
  os_error postgres_error value_error index_error schedule_error validation_error : Exn

pub data Status : Type 0 where
  pending running completed failed : Status

pub record Experiment (R : Type 0) : Type 0 where
  pub id : String
  pub chassis_id : ℕ
  pub channel_idx : ℕ
  pub schedule : Schedule R
  pub schedule_git_sha : String
  pub cycle_index : ℕ
  pub step_index : ℕ
  pub step_started_sim_s : R
  pub status : Status
  pub resume_drift_count : ℕ

-- A row of `experiment_steps`, without its timestamps.
pub record StepRow : Type 0 where
  pub experiment_id : String
  pub cycle_index : ℕ
  pub step_index : ℕ
  pub step_name : String
  pub completed : Bool

pub record CriticalAlert : Type 0 where
  pub message : String
  pub chassis_id : ℕ
  pub channel_idx : ℕ

-- A message of the context queue; `none` clears the retained context.
pub record ContextPayload : Type 0 where
  pub schedule_id : String
  pub step_name : String
  pub step_index : ℕ
  pub cycle_index : ℕ
  pub experiment_id : String

pub record ContextMessage : Type 0 where
  pub chassis_id : ℕ
  pub channel_idx : ℕ
  pub payload : Option ContextPayload

pub record CycleEvent : Type 0 where
  pub experiment_id : String
  pub chassis_id : ℕ
  pub channel_idx : ℕ
  pub cycle_index : ℕ
  pub schedule_id : String

pub record State (R : Type 0) : Type 0 where
  pub exp : Experiment R
  pub calls : ℕ
  pub statuses : List (String × Status)
  pub steps : List StepRow
  pub alerts : List CriticalAlert
  pub alerted_unreachable : List ℕ
  pub writes : List (ℕ × Write)
  pub contexts : List ContextMessage
  pub events : List CycleEvent

-- Which calls fail, what a register reads, and what `SimTime.now_sim()` returns.
pub record Env (R : Type 0) : Type 0 where
  pub modbus_fails : ℕ → Bool
  pub db_fails : ℕ → Bool
  pub register : (call address : ℕ) → ℕ
  pub now_sim : ℕ → R

pub data Result {ℓ} (A : Type ℓ) : Type ℓ where
  ok : A → Result A
  raise : Exn → Result A

abbrev pub Action : Type 0 → Type 0 → Type 0
Action R A = State R → Result A × State R

abbrev pub pure : {R A : Type 0} → A → Action R A
pure a s = (ok a, s)

abbrev pub throw : {R A : Type 0} → Exn → Action R A
throw e s = (raise e, s)

-- What follows a call, on its outcome.
abbrev pub and_then : {R A B : Type 0} → Result A × State R → (A → Action R B) → Result B × State R
and_then (ok a, s) f = f a s
and_then (raise e, s) f = (raise e, s)

infixl 5 ◌>>=◌ ◌>>◌
abbrev pub ◌>>=◌ : {R A B : Type 0} → Action R A → (A → Action R B) → Action R B
◌>>=◌ m f s = and_then (m s) f

abbrev pub ◌>>◌ : {R A B : Type 0} → Action R A → Action R B → Action R B
◌>>◌ m k s = and_then (m s) (λ _. k)

abbrev pub get : {R : Type 0} → Action R (State R)
get s = (ok s, s)

abbrev pub modify : {R : Type 0} → (State R → State R) → Action R (Unit {0})
modify f s = (ok tt, f s)

abbrev pub modify_exp : {R : Type 0} → (Experiment R → Experiment R) → Action R (Unit {0})
modify_exp f s = (ok tt, record s { exp = f s.exp })

-- `try: m; except OSError: h`, and the same for `PostgresError`.
abbrev pub on_os_error : {R A : Type 0} → Action R A → Result A × State R → Result A × State R
on_os_error h (raise os_error, s) = h s
on_os_error h (ok a, s) = (ok a, s)
on_os_error h (raise e, s) = (raise e, s)

abbrev pub catch_os : {R A : Type 0} → Action R A → Action R A → Action R A
catch_os m h s = on_os_error h (m s)

abbrev pub on_postgres_error : {R A : Type 0} → Action R A → Result A × State R → Result A × State R
on_postgres_error h (raise postgres_error, s) = h s
on_postgres_error h (ok a, s) = (ok a, s)
on_postgres_error h (raise e, s) = (raise e, s)

abbrev pub catch_postgres : {R A : Type 0} → Action R A → Action R A → Action R A
catch_postgres m h s = on_postgres_error h (m s)

-- `x` or a raise
abbrev pub or_raise : {R A : Type 0} → Exn → Option A → Action R A
or_raise e none = throw e
or_raise e (some a) = pure a

-- `Queue.put_nowait`, with a full queue dropping the message.
abbrev pub queue_max : ℕ
queue_max = 1000

unfoldable pub put_nowait {ℓ} : {A : Type ℓ} → List A → A → List A
put_nowait q a = if ltb (length q) queue_max then q ++ a ∷ [] else q
