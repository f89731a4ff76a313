-- ===== src/Examples/ExportRuns.antt =====
-- The theorems on the export at concrete inputs.
use battery_lab_sim.Prelude.{
  ℕ, ◌*◌, ◌/◌, ◌%◌, ◌<◌, ◌≡◌, ◌≢◌, ◌⊎◌, refl, ap, inl, inr, Option, none, some, List, [], ◌∷◌,
  arith, length, ltb, leb, ◌==◌, ℕ_eq, Bool-cases, if◌then◌else◌,
}
use battery_lab_sim.Prelude.Int.{ℤ}
use battery_lab_sim.Prelude.Dict.{lookup, contains}
use battery_lab_sim.Export.{
  hour_us, batch_rows, TelemetryRow, HivePath, Outside, Point, write_batch, Failure, os_error,
  World, of_hour, hour_floor, records_to_batch,
}
use battery_lab_sim.Export.Hour.{out_of_fuel, stream, export_hour}
use battery_lab_sim.Export.Stream.{stream-ends}
use battery_lab_sim.Export.Outcome.{archived, IsOutcome, export_hour-IsOutcome}
use battery_lab_sim.Export.Pass.{Pass, cutoff_of, run_once, serve}
use battery_lab_sim.Export.Kept.{IsKept, IsSafe}
use battery_lab_sim.Export.Passes.{IsCovered, serve-IsKept}
use battery_lab_sim.Export.Complete.{run_once-IsCovered}
use battery_lab_sim.Export.Fixed.{serve-archived}
use mathlib.Core.List.{Perm}
use mathlib.Core.List.Perm

-- A database that sorts by insertion, and drops the rows before the cutoff.
abbrev insert_by_time : TelemetryRow ℤ → List (TelemetryRow ℤ) → List (TelemetryRow ℤ)
insert_by_time r [] = r ∷ []
insert_by_time r (x ∷ xs) =
    let rest = insert_by_time r xs in if leb r.time x.time then r ∷ x ∷ xs else x ∷ rest

abbrev sort_rows : List (TelemetryRow ℤ) → List (TelemetryRow ℤ)
sort_rows [] = []
sort_rows (x ∷ xs) = insert_by_time x (sort_rows xs)

insert_by_time-Perm :
    (r : TelemetryRow ℤ) (xs : List (TelemetryRow ℤ)) → Perm (insert_by_time r xs) (r ∷ xs)
insert_by_time-Perm r [] = Perm.refl (r ∷ [])
insert_by_time-Perm r (x ∷ xs) = elim (Bool-cases (leb r.time x.time)) [
  | inl e ↦ rw e (Perm.refl (r ∷ x ∷ xs))
  | inr e ↦ rw e (Perm.trans (Perm.cons x (insert_by_time-Perm r xs)) (Perm.swap r x xs))
]

sort_rows-Perm : (xs : List (TelemetryRow ℤ)) → Perm (sort_rows xs) xs
sort_rows-Perm [] = Perm.refl []
sort_rows-Perm (x ∷ xs) =
    Perm.trans (insert_by_time-Perm x (sort_rows xs)) (Perm.cons x (sort_rows-Perm xs))

abbrev keep_from : ℕ → List (TelemetryRow ℤ) → List (TelemetryRow ℤ)
keep_from cutoff [] = []
keep_from cutoff (r ∷ rows) =
    let rest = keep_from cutoff rows in if ltb r.time (cutoff * hour_us) then rest else r ∷ rest

of_hour-keep_from :
    (cutoff h : ℕ) (rows : List (TelemetryRow ℤ))
    → of_hour h (keep_from cutoff rows) ≡ (if ltb h cutoff then [] else of_hour h rows)
unfolding of_hour
of_hour-keep_from cutoff h [] = ground arith
of_hour-keep_from cutoff h (r ∷ rows) = ground (arith, of_hour-keep_from cutoff h rows)

dropped :
    (cutoff h : ℕ) (rows : List (TelemetryRow ℤ))
    → (of_hour h (keep_from cutoff rows) ≡ of_hour h rows)
      ⊎ ((of_hour h (keep_from cutoff rows) ≡ []) × (h < cutoff))
dropped cutoff h rows = elim (Bool-cases (ltb h cutoff)) [
  | inl e ↦ inr (rw (of_hour-keep_from cutoff h rows) (rw e refl), ground arith)
  | inr e ↦ inl (rw (of_hour-keep_from cutoff h rows) (rw e refl))
]

abbrev date_of : ℕ → HivePath
date_of h = record { year = 1970; month = 1; day = h / 24; hour = h % 24 }

date_of-injective : (g h : ℕ) → date_of g ≡ date_of h → g ≡ h
date_of-injective g h e =
    let days : g / 24 ≡ h / 24 = ap (λ p. p.day) e in
    let hours : g % 24 ≡ h % 24 = ap (λ p. p.hour) e in omega arith

abbrev outside : Outside ℤ
outside = record {
  order_by_time = sort_rows;
  drop_chunks = λ cutoff rows. (1, keep_from cutoff rows);
  date = date_of;
  file_size = λ batches. length batches;
  order_by_time-Perm = sort_rows-Perm;
  drop_chunks_lem = dropped;
  date_injective = date_of-injective;
}

abbrev row : ℕ → TelemetryRow ℤ
row t = record {
  time = t;
  chassis_id = 1;
  channel_idx = 2;
  schedule_id = "formation";
  cycle_index = 0;
  step_name = "";
  voltage_v = none;
  current_a = none;
  temperature_c = none;
  soc_est = none;
}

abbrev rows : List (TelemetryRow ℤ)
rows = row 10 ∷ row 5 ∷ row 3600000005 ∷ []

abbrev start : World ℤ
start = record { telemetry = rows; ledger = []; archive = []; received = rows }

abbrev no_fault : Point → Option Failure
no_fault p = none

-- The first batch cannot be written.
abbrev full_disk : Point → Option Failure
full_disk (write_batch round) = some os_error
full_disk p = none

abbrev pass : (Point → Option Failure) → Pass ℤ
pass fault = record {
  now = 7200000000;
  before_scan = [];
  before_drop = [];
  scan_fault = none;
  drop_fault = none;
  turn = λ h. record { arrived = []; fault = if h == 1 then fault else no_fault };
}

start-IsSafe : IsSafe outside 0 start
unfolding contains lookup
start-IsSafe = (λ h. inr (refl, refl), λ h m. cc)

serve-IsKept_example :
    IsKept outside 1 (serve outside 0 (pass full_disk ∷ pass no_fault ∷ []) start).1
unfolding cutoff_of hour_floor
serve-IsKept_example =
    serve-IsKept outside 0 0 (pass full_disk ∷ pass no_fault ∷ []) start 1
      (omega arith, tt, tt, λ h. tt, (omega arith, tt, tt, λ h. tt, tt)) start-IsSafe

export_hour-IsOutcome_example : IsOutcome outside 0 start (export_hour outside no_fault 0 start)
export_hour-IsOutcome_example = export_hour-IsOutcome outside no_fault 0 start

stream-ends_example :
    (stream no_fault 2 0 rows (record { writer = none; row_count = 0 })).0 ≢ out_of_fuel
unfolding batch_rows
stream-ends_example =
    stream-ends no_fault 2 0 rows (record { writer = none; row_count = 0 }) (omega arith)

run_once-IsCovered_example :
    IsCovered outside (cutoff_of 7200000000 0) (run_once outside 0 (pass no_fault) start).1
unfolding cutoff_of hour_floor
run_once-IsCovered_example =
    run_once-IsCovered outside 0 0 (pass no_fault) start refl (λ h p. ground arith)
      (omega arith, tt, tt, λ h. tt, tt) start-IsSafe

abbrev exported : World ℤ
exported = record start {
  ledger = (0, record { s3_path = date_of 0; row_count = 2; byte_count = 1 }) ∷ [];
  archive = (date_of 0, records_to_batch (row 5 ∷ row 10 ∷ []) ∷ []) ∷ [];
}

serve-archived_example :
    archived outside 0 (serve outside 0 (pass no_fault ∷ []) exported).1
    ≡ archived outside 0 exported
unfolding contains lookup
serve-archived_example = serve-archived outside 0 0 (pass no_fault ∷ []) exported refl
