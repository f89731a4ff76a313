-- ===== src/Export/Pass.antt =====
-- services/parquet_export/src/parquet_export/main.py: a pass over the pending hours, and the loop of
-- passes.
use battery_lab_sim.Prelude.{
  ℕ, ◌+◌, ◌-◌, ◌*◌, Bool, true, false, Option, none, some, List, [], ◌∷◌, ◌==◌, if◌then◌else◌,
  length,
}
use battery_lab_sim.Export.{
  hour_us, TelemetryRow, Outside, Point, Failure, postgres_error, other_error, Attempt, returned,
  raised, World, hour_floor, find_pending_hours, insert_rows,
}
use battery_lab_sim.Export.Hour.{export_hour}

pub record Summary : Type 0 where
  pub exported_hours : ℕ
  pub total_rows : ℕ
  pub total_bytes : ℕ
  pub chunks_dropped : ℕ

abbrev pub empty_summary : Summary
empty_summary = record { exported_hours = 0; total_rows = 0; total_bytes = 0; chunks_dropped = 0 }

-- What happens in the export of an hour: the rows that the ingester inserts before it, and its failures.
pub record Turn (R : Type 0) : Type 0 where
  pub arrived : List (TelemetryRow R)
  pub fault : Point → Option Failure

-- What happens in a pass that begins at the time `now`: the rows that come before it and before the
-- chunks are dropped, the failures of its two other statements, and the turn of each hour.
pub record Pass (R : Type 0) : Type 0 where
  pub now : ℕ
  pub before_scan : List (TelemetryRow R)
  pub before_drop : List (TelemetryRow R)
  pub scan_fault : Option Failure
  pub drop_fault : Option Failure
  pub turn : ℕ → Turn R

-- The cutoff of a pass, as an hour.
unfoldable pub cutoff_of : ℕ → ℕ → ℕ
unfolding hour_floor
cutoff_of now age_hours = hour_floor (now - age_hours * hour_us)

-- `except (asyncpg.PostgresError, OSError)`
abbrev pub is_caught : Failure → Bool
is_caught other_error = false
is_caught e = true

-- How the loop over the hours ends: by itself, by `break`, or by an exception that nothing catches.
pub data End : Type 0 where
  at_end broken : End
  escaped : Failure → End

-- What `except asyncpg.PostgresError` of `_run` lets through.
abbrev pub uncaught : Attempt Summary → Option Failure
uncaught (returned sum) = none
uncaught (raised postgres_error) = none
uncaught (raised e) = some e

-- `exported == len(pending) and pending`
abbrev pub covers : ℕ → List ℕ → Bool
covers exported [] = false
covers exported (h ∷ pending) = exported == length (h ∷ pending)

-- What follows the export of an hour, of which `rest` goes on with the other hours.
unfoldable pub after_export :
    {R : Type 0}
    → (Summary → World R → End × Summary × World R)
    → Summary
    → Attempt (ℕ × ℕ) × World R
    → End × Summary × World R
after_export rest sum (raised e, w) = (if is_caught e then broken else escaped e, sum, w)
after_export rest sum (returned (rc, bc), w) =
    rest
      (record sum {
        exported_hours = sum.exported_hours + 1;
        total_rows = sum.total_rows + rc;
        total_bytes = sum.total_bytes + bc;
      })
      w

module _ {R : Type 0} (out : Outside R) where
  unfoldable pub export_all : (ℕ → Turn R) → List ℕ → Summary → World R → End × Summary × World R
  unfolding insert_rows export_hour after_export
  export_all turn [] sum w = (at_end, sum, w)
  export_all turn (h ∷ hs) sum w =
      after_export (export_all turn hs) sum
        (export_hour out (turn h).fault h (insert_rows (turn h).arrived w))

  -- `drop_exported_chunks`
  unfoldable pub drop_exported_chunks :
      Option Failure → ℕ → Summary → World R → Attempt Summary × World R
  drop_exported_chunks (some e) cutoff sum w = (raised e, w)
  drop_exported_chunks none cutoff sum w =
      let (n, left) = out.drop_chunks cutoff w.telemetry in
      (returned (record sum { chunks_dropped = n }), record w { telemetry = left })

  -- What follows the loop over the hours.
  unfoldable pub after_exports :
      Pass R → ℕ → List ℕ → End × Summary × World R → Attempt Summary × World R
  unfolding insert_rows drop_exported_chunks
  after_exports p cutoff pending (escaped e, sum, w) = (raised e, w)
  after_exports p cutoff pending (_, sum, w) =
      if covers sum.exported_hours pending
      then drop_exported_chunks p.drop_fault cutoff sum (insert_rows p.before_drop w)
      else (returned sum, w)

  unfoldable pub run_once : ℕ → Pass R → World R → Attempt Summary × World R
  unfolding cutoff_of find_pending_hours insert_rows export_all after_exports
  run_once age_hours p w =
      let w' = insert_rows p.before_scan w in
      elim p.scan_fault [
        | some e ↦ (raised e, w')
        | none ↦
            let cutoff = cutoff_of p.now age_hours in
            let pending = find_pending_hours cutoff w' in
            after_exports p cutoff pending (export_all p.turn pending empty_summary w')
      ]

  -- The loop of `_run` over its passes: it logs a `PostgresError`, and other exceptions end it.
  unfoldable pub serve : ℕ → List (Pass R) → World R → Option Failure × World R
  unfolding run_once
  serve age_hours [] w = (none, w)
  serve age_hours (p ∷ ps) w =
      let (result, w') = run_once age_hours p w in
      elim (uncaught result) [ some e ↦ (some e, w') | none ↦ serve age_hours ps w' ]
