-- ===== src/Export.antt =====
-- services/parquet_export/src/parquet_export: the hours of telemetry that are written to the archive,
-- the ledger of them, and the chunks that are dropped. An hour stands for its start, as the number
-- of hours since 1970; times are in microseconds.
pub mod Hour
pub mod Batch
pub mod Stream
pub mod Outcome
pub mod Pass
pub mod Scan
pub mod Kept
pub mod Loop
pub mod Passes
pub mod Fixed
pub mod Complete
use battery_lab_sim.Prelude.{
  ℕ, zero, suc, ◌+◌, ◌-◌, ◌*◌, ◌/◌, ◌<◌, ◌≡◌, ◌↔◌, ◌⊎◌, String, Bool, true, false, not, ◌&&◌,
  Option, none, some, List, [], ◌∷◌, ◌++◌, map, ltb, leb, arith, ℕ_eq, ◌==◌, if◌then◌else◌, length,
  Eq,
}
use battery_lab_sim.Prelude.Dict.{lookup, insert, contains}
pub use battery_lab_sim.Prelude.Attempt.{
  Failure, postgres_error, os_error, other_error, Attempt, returned, raised,
}
use battery_lab_sim.Schedule.Bench.{sorted_set}
use mathlib.Core.List.{Perm}

abbrev pub hour_us : ℕ
hour_us = 3600000000

-- `_BATCH_ROWS`
unfoldable pub batch_rows : ℕ
batch_rows = 100000

-- A row of `telemetry`.
pub record TelemetryRow (R : Type 0) : Type 0 where
  pub time : ℕ
  pub chassis_id : ℕ
  pub channel_idx : ℕ
  pub schedule_id : String
  pub cycle_index : ℕ
  pub step_name : String
  pub voltage_v : Option R
  pub current_a : Option R
  pub temperature_c : Option R
  pub soc_est : Option R

-- A `pa.RecordBatch` of `TELEMETRY_SCHEMA`: a list for each column.
pub record RecordBatch (R : Type 0) : Type 0 where
  pub times : List ℕ
  pub chassis_ids : List ℕ
  pub channel_idxs : List ℕ
  pub schedule_ids : List String
  pub cycle_indexes : List ℕ
  pub step_names : List String
  pub voltages : List (Option R)
  pub currents : List (Option R)
  pub temperatures : List (Option R)
  pub soc_ests : List (Option R)

module _ {R : Type 0} where
  -- The rows of an hour, in the table's order.
  unfoldable pub of_hour : ℕ → List (TelemetryRow R) → List (TelemetryRow R)
  of_hour h [] = []
  of_hour h (r ∷ rows) =
      let rest = of_hour h rows in
      if leb (h * hour_us) r.time && ltb r.time ((h + 1) * hour_us) then r ∷ rest else rest

-- The parts of an hour that `hive_path` prints.
pub record HivePath : Type 0 where
  pub year : ℕ
  pub month : ℕ
  pub day : ℕ
  pub hour : ℕ

abbrev pub path_beq : HivePath → HivePath → Bool
path_beq p q = p.year == q.year && p.month == q.month && p.day == q.day && p.hour == q.hour

pub path_beq_iff : (p q : HivePath) → (path_beq p q ≡ true) ↔ (p ≡ q)
path_beq_iff p q = ground arith

instance abbrev pub HivePath_eq : Eq HivePath
HivePath_eq = record { beq = path_beq; beq_iff = path_beq_iff }

-- What the code uses of TimescaleDB, of the calendar and of the size of a Parquet file.
pub record Outside (R : Type 0) : Type 0 where
  -- `ORDER BY time`
  pub order_by_time : List (TelemetryRow R) → List (TelemetryRow R)
  -- `drop_chunks('telemetry', older_than => cutoff)`: the number of chunks, and what it leaves
  pub drop_chunks : ℕ → List (TelemetryRow R) → ℕ × List (TelemetryRow R)
  -- `hour_start.year` and so on
  pub date : ℕ → HivePath
  -- `get_file_info(path).size or 0` of a written file
  pub file_size : List (RecordBatch R) → ℕ
  pub order_by_time-Perm : (rows : List (TelemetryRow R)) → Perm (order_by_time rows) rows
  -- A chunk is an hour, and is dropped whole, if it ends by the cutoff.
  pub drop_chunks_lem :
      (cutoff h : ℕ) (rows : List (TelemetryRow R))
      → (of_hour h (drop_chunks cutoff rows).1 ≡ of_hour h rows)
        ⊎ ((of_hour h (drop_chunks cutoff rows).1 ≡ []) × (h < cutoff))
  pub date_injective : (g h : ℕ) → date g ≡ date h → g ≡ h

-- What can raise in the export of an hour, by the number of the batch in the loop.
pub data Point : Type 0 where
  acquire open_stream close file_info record_row : Point
  fetch write_batch : (round : ℕ) → Point

pub record LedgerRow : Type 0 where
  pub s3_path : HivePath
  pub row_count : ℕ
  pub byte_count : ℕ

-- The two tables and the bucket, with all rows that were ever inserted.
pub record World (R : Type 0) : Type 0 where
  pub telemetry : List (TelemetryRow R)
  pub ledger : List (ℕ × LedgerRow)
  pub archive : List (HivePath × List (RecordBatch R))
  pub received : List (TelemetryRow R)

-- `time_bucket('1 hour', time)`, and `hour_floor`
unfoldable pub hour_floor : ℕ → ℕ
hour_floor time = time / hour_us

-- The names of the columns stand for the list of the dictionary that has their name.
unfoldable pub records_to_batch : {R : Type 0} → List (TelemetryRow R) → RecordBatch R
records_to_batch records = record {
  times = map (λ r. r.time) records;
  chassis_ids = map (λ r. r.chassis_id) records;
  channel_idxs = map (λ r. r.channel_idx) records;
  schedule_ids = map (λ r. r.schedule_id) records;
  cycle_indexes = map (λ r. r.cycle_index) records;
  step_names = map (λ r. r.step_name) records;
  voltages = map (λ r. r.voltage_v) records;
  currents = map (λ r. r.current_a) records;
  temperatures = map (λ r. r.temperature_c) records;
  soc_ests = map (λ r. r.soc_est) records;
}

-- `batch.num_rows`
abbrev pub num_rows : {R : Type 0} → RecordBatch R → ℕ
num_rows batch = length batch.times

module _ {R : Type 0} where
  -- The hours of the rows before the cutoff that the ledger does not have.
  unfoldable pub unrecorded : ℕ → List (ℕ × LedgerRow) → List (TelemetryRow R) → List ℕ
  unfolding hour_floor contains
  unrecorded cutoff ledger [] = []
  unrecorded cutoff ledger (r ∷ rows) =
      let rest = unrecorded cutoff ledger rows in
      if ltb r.time (cutoff * hour_us) && not (contains (hour_floor r.time) ledger)
      then hour_floor r.time ∷ rest
      else rest

  unfoldable pub find_pending_hours : ℕ → World R → List ℕ
  unfolding unrecorded sorted_set
  find_pending_hours cutoff w = sorted_set (unrecorded cutoff w.ledger w.telemetry)

  -- `INSERT ... ON CONFLICT (hour_start) DO NOTHING`
  unfoldable pub record_export : ℕ → LedgerRow → World R → World R
  unfolding contains
  record_export h row w =
      if contains h w.ledger then w else record w { ledger = w.ledger ++ (h, row) ∷ [] }

  -- Rows that the ingester inserts.
  unfoldable pub insert_rows : List (TelemetryRow R) → World R → World R
  insert_rows rows w = record w { telemetry = w.telemetry ++ rows; received = w.received ++ rows }
