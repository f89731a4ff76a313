-- ===== src/Export/Batch.antt =====
-- The columns of a batch and the rows of a file, read back.
use battery_lab_sim.Prelude.{ℕ, ◌≡◌, refl, sym, ap, ◌∙◌, Option, String, List, [], ◌∷◌, ◌++◌}
use battery_lab_sim.Export.{TelemetryRow, RecordBatch, records_to_batch}
use mathlib.Core.List.{append_assoc, append-nil}

module _ {R : Type 0} where
  -- The rows that columns hold.
  abbrev pub read_columns :
      List ℕ
      → List ℕ
      → List ℕ
      → List String
      → List ℕ
      → List String
      → List (Option R)
      → List (Option R)
      → List (Option R)
      → List (Option R)
      → List (TelemetryRow R)
  read_columns (t ∷ ts) (c ∷ cs) (i ∷ is) (d ∷ ds) (n ∷ ns) (p ∷ ps) (v ∷ vs) (a ∷ cur) (k ∷ ks)
        (o ∷ os) =
      record {
        time = t;
        chassis_id = c;
        channel_idx = i;
        schedule_id = d;
        cycle_index = n;
        step_name = p;
        voltage_v = v;
        current_a = a;
        temperature_c = k;
        soc_est = o;
      }
      ∷ read_columns ts cs is ds ns ps vs cur ks os
  read_columns _ _ _ _ _ _ _ _ _ _ = []

  abbrev pub read_batch : RecordBatch R → List (TelemetryRow R)
  read_batch b =
      read_columns b.times b.chassis_ids b.channel_idxs b.schedule_ids b.cycle_indexes b.step_names
        b.voltages b.currents b.temperatures b.soc_ests

  -- The rows of a file.
  abbrev pub read_file : List (RecordBatch R) → List (TelemetryRow R)
  read_file [] = []
  read_file (b ∷ bs) = read_batch b ++ read_file bs

  -- The columns of records, read row by row, are these records again, in order.
  pub records_to_batch-reads :
      (records : List (TelemetryRow R)) → read_batch (records_to_batch records) ≡ records
  unfolding records_to_batch
  records_to_batch-reads [] = refl
  records_to_batch-reads (r ∷ rs) = ap (λ l. r ∷ l) (records_to_batch-reads rs)

  pub read_file-append :
      (bs : List (RecordBatch R)) (b : RecordBatch R)
      → read_file (bs ++ b ∷ []) ≡ read_file bs ++ read_batch b
  read_file-append [] b = append-nil (read_batch b)
  read_file-append (c ∷ bs) b =
      ap (λ l. read_batch c ++ l) (read_file-append bs b)
      ∙ sym (append_assoc (read_batch c) (read_file bs) (read_batch b))
