-- ===== src/Orchestrator/Build/Journal.antt =====
-- services/orchestrator/src/orchestrator/main.py and executor.py: what `_load_resume_state` reads back
-- from the rows that the executor wrote.
use battery_lab_sim.Prelude.{
  ℕ, ◌≡◌, refl, ap, ◌∙◌, String, String_eq, Bool, true, false, ◌&&◌, ◌||◌, Option, none, some, List,
  [], ◌∷◌, ◌++◌, ◌==◌, ltb, if◌then◌else◌, any, arith,
}
use battery_lab_sim.Orchestrator.State.{StepRow}
use battery_lab_sim.Orchestrator.Tables.{same_step, complete_row}
use battery_lab_sim.Orchestrator.Build.{later_of, last_row}
use text.Mathlib.Text.{◌==◌ as str_eq}

-- Whether a position comes after the one of a row, if there is a row.
abbrev pub is_ahead : ℕ → ℕ → Option StepRow → Bool
is_ahead cycle step none = true
is_ahead cycle step (some row) =
    ltb row.cycle_index cycle || row.cycle_index == cycle && ltb row.step_index step

abbrev pub complete_one : String → ℕ → ℕ → StepRow → StepRow
complete_one id cycle step row =
    if same_step id cycle step row then record row { completed = true } else row

abbrev pub complete_last : String → ℕ → ℕ → Option StepRow → Option StepRow
complete_last id cycle step none = none
complete_last id cycle step (some row) = some (complete_one id cycle step row)

-- `last_row` of a list from its head and what its tail gives.
abbrev pub join : String → StepRow → Option StepRow → Option StepRow
join id row rest = if str_eq row.experiment_id id then some (later_of row rest) else rest

join_complete :
    (id : String) (c k : ℕ) (row : StepRow) (rest : Option StepRow)
    → join id (complete_one id c k row) (complete_last id c k rest)
      ≡ complete_last id c k (join id row rest)
join_complete id c k row none = ground arith
join_complete id c k row (some b) = ground arith

join_ahead :
    (id : String) (c k : ℕ) (row : StepRow) (rest : Option StepRow)
    → is_ahead c k (join id row rest) ≡ true
    → (same_step id c k row ≡ false) × (is_ahead c k rest ≡ true)
join_ahead id c k row none h = ground arith
join_ahead id c k row (some b) h = ground arith

join_new :
    (id : String) (new row : StepRow) (rest : Option StepRow)
    → is_ahead new.cycle_index new.step_index (join id row rest) ≡ true
    → join id row (some new) ≡ some new
join_new id new row none h = ground arith
join_new id new row (some b) h = ground arith

-- Completing a row completes the last row if that is the one, and does not change which row is last.
pub last_row-complete_row :
    (id : String) (c k : ℕ) (rows : List StepRow)
    → last_row id (complete_row id c k rows) ≡ complete_last id c k (last_row id rows)
unfolding last_row complete_row
last_row-complete_row id c k [] = refl
last_row-complete_row id c k (row ∷ rows) =
    ap (join id (complete_one id c k row)) (last_row-complete_row id c k rows)
    ∙ join_complete id c k row (last_row id rows)

-- A position ahead of the last row has no row.
pub any-same_step-ahead :
    (id : String) (c k : ℕ) (rows : List StepRow)
    → is_ahead c k (last_row id rows) ≡ true
    → any (same_step id c k) rows ≡ false
unfolding last_row
any-same_step-ahead id c k [] h = refl
any-same_step-ahead id c k (row ∷ rows) h =
    let both = join_ahead id c k row (last_row id rows) h in
    ground (arith, both.0, any-same_step-ahead id c k rows both.1)

-- A row behind which there is none is the last row once it is written.
pub last_row-snoc :
    (id : String) (new : StepRow) (rows : List StepRow)
    → str_eq new.experiment_id id ≡ true
    → is_ahead new.cycle_index new.step_index (last_row id rows) ≡ true
    → last_row id (rows ++ new ∷ []) ≡ some new
unfolding last_row
last_row-snoc id new [] e h = ground arith
last_row-snoc id new (row ∷ rows) e h =
    let both = join_ahead id new.cycle_index new.step_index row (last_row id rows) h in
    ap (join id row) (last_row-snoc id new rows e both.1) ∙ join_new id new row (last_row id rows) h

-- Completing a step that has no row, nor any row after it, changes no row.
pub complete_row-ahead :
    (id : String) (c k : ℕ) (rows : List StepRow)
    → is_ahead c k (last_row id rows) ≡ true
    → complete_row id c k rows ≡ rows
unfolding last_row complete_row
complete_row-ahead id c k [] h = refl
complete_row-ahead id c k (row ∷ rows) h =
    let both = join_ahead id c k row (last_row id rows) h in
    rw both.0 (ap (λ rs. row ∷ rs) (complete_row-ahead id c k rows both.1))
