-- ===== src/Export/Hour.antt =====
-- services/parquet_export/src/parquet_export/export.py: the export of one hour.
use battery_lab_sim.Prelude.{
  ℕ, zero, suc, ◌+◌, Option, none, some, List, [], ◌∷◌, ◌++◌, ◌==◌, length, if◌then◌else◌,
}
use battery_lab_sim.Prelude.Dict.{insert}
use battery_lab_sim.Export.{
  batch_rows, TelemetryRow, RecordBatch, HivePath_eq, Outside, Point, acquire, open_stream, close,
  file_info, record_row, fetch, write_batch, Failure, Attempt, returned, raised, World,
  records_to_batch, num_rows, of_hour, record_export,
}

-- The rows that one fetch returns, and those that are left.
unfoldable pub take {ℓ} : {A : Type ℓ} → ℕ → List A → List A
take zero xs = []
take (suc n) [] = []
take (suc n) (x ∷ xs) = x ∷ take n xs

unfoldable pub drop {ℓ} : {A : Type ℓ} → ℕ → List A → List A
drop zero xs = xs
drop (suc n) [] = []
drop (suc n) (x ∷ xs) = drop n xs

-- The batches in the writer, which is made for the first one, and `row_count`.
pub record Stream (R : Type 0) : Type 0 where
  pub writer : Option (List (RecordBatch R))
  pub row_count : ℕ

pub data Progress : Type 0 where
  finished out_of_fuel : Progress
  stopped : Failure → Progress

abbrev pub written : {R : Type 0} → Option (List (RecordBatch R)) → List (RecordBatch R)
written none = []
written (some batches) = batches

module _ {R : Type 0} where
  -- `open_output_stream` is called for the first batch only.
  unfoldable pub open_fault :
      (Point → Option Failure) → Option (List (RecordBatch R)) → Option Failure
  open_fault fault none = fault open_stream
  open_fault fault (some batches) = none

  -- The body of the loop, on the records that were fetched: the failure of the first call that raises,
  -- and what is written.
  unfoldable pub write_records :
      (Point → Option Failure) → ℕ → List (TelemetryRow R) → Stream R → Option Failure × Stream R
  unfolding open_fault records_to_batch
  write_records fault round records s = elim (open_fault fault s.writer) [
    | some e ↦ (some e, s)
    | none ↦ elim (fault (write_batch round)) [
      | some e ↦ (some e, record s { writer = some (written s.writer) })
      | none ↦
          let batch = records_to_batch records in
          (
            none,
            record {
              writer = some (written s.writer ++ batch ∷ []);
              row_count = s.row_count + num_rows batch;
            },
          )
    ]
  ]

  -- The `while True` of `export_hour`, on the rows that the cursor still has.
  unfoldable pub stream :
      (Point → Option Failure) → ℕ → ℕ → List (TelemetryRow R) → Stream R → Progress × Stream R
  unfolding take drop write_records
  stream fault zero round rows s = (out_of_fuel, s)
  stream fault (suc fuel) round rows s = elim (fault (fetch round)) [
    | some e ↦ (stopped e, s)
    | none ↦ elim (take batch_rows rows) [
      | [] ↦ (finished, s)
      | r ∷ rs ↦
          let (failure, s') = write_records fault round (r ∷ rs) s in
          elim failure [
            | some e ↦ (stopped e, s')
            | none ↦ stream fault fuel (round + 1) (drop batch_rows rows) s'
          ]
    ]
  ]

module _ {R : Type 0} (out : Outside R) where
  -- The `finally`: the file is what was written, and on a failure too.
  unfoldable pub close_writer :
      (Point → Option Failure)
      → ℕ
      → Option (List (RecordBatch R))
      → World R
      → Option Failure × World R
  unfolding insert
  close_writer fault h none w = (none, w)
  close_writer fault h (some batches) w = elim (fault close) [
    | some e ↦ (some e, w)
    | none ↦ (none, record w { archive = insert (out.date h) batches w.archive })
  ]

  -- What follows the file: its size and the row of the ledger.
  unfoldable pub finish :
      (Point → Option Failure) → ℕ → Stream R → World R → Attempt (ℕ × ℕ) × World R
  unfolding record_export
  finish fault h s w =
      if s.row_count == 0
      then elim (fault record_row) [
        | some e ↦ (raised e, w)
        | none ↦ (
          returned (0, 0),
          record_export h (record { s3_path = out.date h; row_count = 0; byte_count = 0 }) w,
        )
      ]
      else elim (fault file_info) [
        | some e ↦ (raised e, w)
        | none ↦
            let size = out.file_size (written s.writer) in
            elim (fault record_row) [
              | some e ↦ (raised e, w)
              | none ↦ (
                returned (s.row_count, size),
                record_export h
                    (record { s3_path = out.date h; row_count = s.row_count; byte_count = size }) w,
              )
            ]
      ]

  -- The end of the `try`: a failure of the `finally`, or of the loop, goes on. `out_of_fuel` is no
  -- behaviour of the code: the fuel of `export_hour` is enough.
  unfoldable pub after_close :
      (Point → Option Failure)
      → ℕ
      → Progress
      → Stream R
      → Option Failure × World R
      → Attempt (ℕ × ℕ) × World R
  unfolding finish
  after_close fault h p s (some e, w) = (raised e, w)
  after_close fault h (stopped e) s (none, w) = (raised e, w)
  after_close fault h out_of_fuel s (none, w) = (raised Failure.other_error, w)
  after_close fault h finished s (none, w) = finish fault h s w

  unfoldable pub after_stream :
      (Point → Option Failure) → ℕ → Progress × Stream R → World R → Attempt (ℕ × ℕ) × World R
  unfolding close_writer after_close
  after_stream fault h (p, s) w = after_close fault h p s (close_writer fault h s.writer w)

  -- The loop fetches at most once for each row and once more.
  unfoldable pub export_hour : (Point → Option Failure) → ℕ → World R → Attempt (ℕ × ℕ) × World R
  unfolding of_hour stream after_stream
  export_hour fault h w = elim (fault acquire) [
    | some e ↦ (raised e, w)
    | none ↦
        let rows = out.order_by_time (of_hour h w.telemetry) in
        after_stream fault h
          (stream fault (length rows + 1) 0 rows (record { writer = none; row_count = 0 })) w
  ]
