-- ===== src/Watchdog/Chassis/Connection.antt =====
-- services/watchdog/src/watchdog/chassis_monitor.py: the Modbus connection of a probe, which it opens when it
-- reads and has none. What the client answers is a parameter of each read.
use battery_lab_sim.Prelude.{
  ℕ, Bool, true, false, ◌≡◌, refl, Option, none, some, List, [], ◌∷◌, arith, inl, inr, Bool-cases,
  if◌then◌else◌,
}
use battery_lab_sim.Prelude.Attempt.{
  postgres_error, os_error, other_error, Attempt, returned, raised,
}

-- What `read_holding_registers` gives: registers, an error response, an OSError or ValueError, or an
-- exception of another kind.
pub data ReadAnswer : Type 0 where
  registers : List ℕ → ReadAnswer
  error_response failed_read other_exception : ReadAnswer

-- `_ensure_connected`, with what `connect` answers if it is called: whether there is a connection then.
unfoldable pub ensure_connected : Bool → Bool → Bool
ensure_connected connects true = true
ensure_connected connects false = connects

-- `read_status` with a connection: its result, and `_connected` after it.
unfoldable pub read_connected : ReadAnswer → Attempt ℕ × Bool
read_connected (registers (status ∷ more)) = (returned status, true)
read_connected (registers []) = (raised other_error, true)
read_connected error_response = (raised os_error, false)
read_connected failed_read = (raised os_error, false)
read_connected other_exception = (raised other_error, true)

abbrev read_if : Bool → ReadAnswer → Attempt ℕ × Bool
read_if true answer = read_connected answer
read_if false answer = (raised os_error, false)

unfoldable pub read_status : Bool → ReadAnswer → Bool → Attempt ℕ × Bool
unfolding ensure_connected read_connected
read_status connects answer connected = read_if (ensure_connected connects connected) answer

-- What the monitor makes of a read: an OSError is an unreachable chassis, any other exception ends it.
abbrev pub answer_then : Attempt ℕ → List (Option ℕ) → List (Option ℕ)
answer_then (returned status) later = some status ∷ later
answer_then (raised os_error) later = none ∷ later
answer_then (raised postgres_error) later = []
answer_then (raised other_error) later = []

-- The answers of one probe at poll after poll.
unfoldable pub answers_of : List (Bool × ReadAnswer) → Bool → List (Option ℕ)
unfolding read_status
answers_of [] connected = []
answers_of ((connects, answer) ∷ reads) connected =
    let (status, connected') = read_status connects answer connected in
    answer_then status (answers_of reads connected')

read_if-drops :
    (held : Bool) (answer : ReadAnswer)
    → (read_if held answer).0 ≡ raised os_error
    → (read_if held answer).1 ≡ false
unfolding read_connected
read_if-drops false answer e = refl
read_if-drops true (registers []) e = ground arith
read_if-drops true (registers (status ∷ more)) e = ground arith
read_if-drops true error_response e = refl
read_if-drops true failed_read e = refl
read_if-drops true other_exception e = ground arith

-- A probe whose read raised an OSError has no connection, so the next poll connects anew: it has the status
-- if the connect succeeds and the registers come, and else the chassis is unreachable again.
pub answers_of-reconnects :
    (connects again connected : Bool) (answer : ReadAnswer) (status : ℕ) (more : List ℕ)
    → (read_status connects answer connected).0 ≡ raised os_error
    → answers_of ((connects, answer) ∷ (again, registers (status ∷ more)) ∷ []) connected
      ≡ none ∷ (if again then some status else none) ∷ []
unfolding answers_of read_status ensure_connected read_connected
answers_of-reconnects connects again connected answer status more e =
    let dropped = read_if-drops (ensure_connected connects connected) answer e in
    elim (Bool-cases again) [ inl t ↦ rw (e, dropped, t) refl | inr t ↦ rw (e, dropped, t) refl ]
