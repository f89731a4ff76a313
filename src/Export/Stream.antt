-- ===== src/Export/Stream.antt =====
-- What the loop of `export_hour` writes, and that it ends.
use battery_lab_sim.Prelude.{
  ℕ, zero, suc, ◌+◌, ◌-◌, ◌*◌, ◌≤◌, ◌≡◌, ◌≢◌, ◌⊎◌, refl, sym, ap, subst, ◌<◌, ◌∙◌, Option, none,
  some, List, [], ◌∷◌, ◌++◌, map, arith, length, length-append, Option-cases, inl, inr,
}
use battery_lab_sim.Export.{
  batch_rows, TelemetryRow, Point, fetch, write_batch, Failure, records_to_batch,
}
use battery_lab_sim.Export.Hour.{
  take, drop, Stream, finished, out_of_fuel, stopped, written, open_fault, write_records, stream,
}
use battery_lab_sim.Export.Batch.{read_file, read_file-append, records_to_batch-reads}
use mathlib.Core.List.{append_assoc, append-nil}

take-drop : {A : Type 0} (n : ℕ) (xs : List A) → take n xs ++ drop n xs ≡ xs
unfolding take drop
take-drop zero xs = refl
take-drop (suc n) [] = refl
take-drop (suc n) (x ∷ xs) = ap (λ l. x ∷ l) (take-drop n xs)

pub length-drop : {A : Type 0} (n : ℕ) (xs : List A) → length (drop n xs) ≡ length xs - n
unfolding drop
length-drop zero xs = omega arith
length-drop (suc n) [] = omega arith
length-drop (suc n) (x ∷ xs) = omega (arith, length-drop n xs)

pub length-map_time :
    {R : Type 0} (rs : List (TelemetryRow R)) → length (map (λ r. r.time) rs) ≡ length rs
length-map_time [] = refl
length-map_time (r ∷ rs) = ap suc (length-map_time rs)

take-batch :
    {R : Type 0} (r : TelemetryRow R) (rs : List (TelemetryRow R))
    → take batch_rows (r ∷ rs) ≡ r ∷ take 99999 rs
unfolding take batch_rows
take-batch r rs = refl

take-drop_batch :
    {R : Type 0} (r : TelemetryRow R) (rs : List (TelemetryRow R))
    → (r ∷ take 99999 rs) ++ drop batch_rows (r ∷ rs) ≡ r ∷ rs
unfolding take batch_rows
take-drop_batch r rs = take-drop batch_rows (r ∷ rs)

pub finished-ne : finished ≢ out_of_fuel
finished-ne = ground arith

stopped-ne : (e : Failure) → stopped e ≢ out_of_fuel
stopped-ne e = ground arith

stopped-ne_finished : (e : Failure) → stopped e ≢ finished
stopped-ne_finished e = ground arith

module _ {R : Type 0} where
  -- The state after a batch.
  abbrev pub wrote : List (TelemetryRow R) → Stream R → Stream R
  wrote records s = record {
    writer = some (written s.writer ++ records_to_batch records ∷ []);
    row_count = s.row_count + length records;
  }

  abbrev pub IsOpen : Stream R → Type 0
  IsOpen s = s.writer ≡ some (written s.writer)

  -- What a loop that finishes from `s` leaves: the rows are in the file and counted.
  abbrev pub IsWritten : List (TelemetryRow R) → Stream R → Stream R → Type 0
  IsWritten rows s s' =
      (read_file (written s'.writer) ≡ read_file (written s.writer) ++ rows)
      × (s'.row_count ≡ s.row_count + length rows)
      × ((0 < length rows) ⊎ IsOpen s → IsOpen s')

  empty-IsWritten : (s : Stream R) → IsWritten [] s s
  empty-IsWritten s = (
    sym (append-nil (read_file (written s.writer))),
    omega arith,
    λ o. elim o [ inl q ↦ absurd (omega arith) | inr q ↦ q ],
  )

  wrote-reads :
      (records rest : List (TelemetryRow R)) (s : Stream R)
      → read_file (written (wrote records s).writer) ++ rest
        ≡ read_file (written s.writer) ++ (records ++ rest)
  wrote-reads records rest s =
      rw
        (
          read_file-append (written s.writer) (records_to_batch records),
          records_to_batch-reads records,
        )
        (append_assoc (read_file (written s.writer)) records rest)

  wrote-IsWritten :
      (records rest : List (TelemetryRow R)) (s s' : Stream R)
      → IsWritten rest (wrote records s) s'
      → IsWritten (records ++ rest) s s'
  wrote-IsWritten records rest s s' h = (
    h.0 ∙ wrote-reads records rest s,
    omega (arith, h.1, length-append records rest),
    λ _. h.2 (inr refl),
  )

module _ {R : Type 0} (fault : Point → Option Failure) where
  -- Either a call raises, or the records are a batch of the writer.
  write_records-cases :
      (round : ℕ) (records : List (TelemetryRow R)) (s : Stream R)
      → ((e : Failure) × ((write_records fault round records s).0 ≡ some e))
        ⊎ (write_records fault round records s ≡ (none, wrote records s))
  unfolding write_records records_to_batch
  write_records-cases round records s = elim (Option-cases (open_fault fault s.writer)) [
    | inr (e, h) ↦ inl (e, rw (h, write_records) refl)
    | inl h ↦ elim (Option-cases (fault (write_batch round))) [
      | inr (e, h') ↦ inl (e, rw (h, write_records) (rw h' refl))
      | inl h' ↦ inr (rw (h, write_records) (rw h' (rw (length-map_time records) refl)))
    ]
  ]

  pub stream-fetch_fails :
      (fuel round : ℕ) (rows : List (TelemetryRow R)) (s : Stream R) (e : Failure)
      → fault (fetch round) ≡ some e
      → stream fault (suc fuel) round rows s ≡ (stopped e, s)
  unfolding stream
  stream-fetch_fails fuel round rows s e f = rw (f, stream) refl

  pub stream-empty :
      (fuel round : ℕ) (s : Stream R)
      → fault (fetch round) ≡ none
      → stream fault (suc fuel) round [] s ≡ (finished, s)
  unfolding stream take batch_rows
  stream-empty fuel round s f = rw (f, stream) refl

  stream-write_fails :
      (fuel round : ℕ) (r : TelemetryRow R) (rs : List (TelemetryRow R)) (s : Stream R)
      (e : Failure)
      → fault (fetch round) ≡ none
      → (write_records fault round (r ∷ take 99999 rs) s).0 ≡ some e
      → (stream fault (suc fuel) round (r ∷ rs) s).0 ≡ stopped e
  unfolding stream
  stream-write_fails fuel round r rs s e f g = rw (f, stream) (rw (take-batch r rs) (rw g refl))

  pub stream-goes_on :
      (fuel round : ℕ) (r : TelemetryRow R) (rs : List (TelemetryRow R)) (s : Stream R)
      → fault (fetch round) ≡ none
      → write_records fault round (r ∷ take 99999 rs) s ≡ (none, wrote (r ∷ take 99999 rs) s)
      → stream fault (suc fuel) round (r ∷ rs) s
        ≡ stream fault fuel (round + 1) (drop batch_rows (r ∷ rs)) (wrote (r ∷ take 99999 rs) s)
  unfolding stream
  stream-goes_on fuel round r rs s f g =
      rw (f, stream)
        (rw (take-batch r rs) (
          rw (ap (λ p. p.0) g)
            (ap (stream fault fuel (round + 1) (drop batch_rows (r ∷ rs))) (ap (λ p. p.1) g))))

  -- If the rows that are left are at most as many as one batch less than the fuel's batches, the loop
  -- does not run out of fuel, whatever call raises.
  pub stream-ends :
      (fuel round : ℕ) (rows : List (TelemetryRow R)) (s : Stream R)
      → length rows + batch_rows ≤ fuel * batch_rows
      → (stream fault fuel round rows s).0 ≢ out_of_fuel
  unfolding batch_rows
  stream-ends zero round rows s h = absurd (omega arith)
  stream-ends (suc fuel) round [] s h = elim (Option-cases (fault (fetch round))) [
    | inr (e, f) ↦ rw (stream-fetch_fails fuel round [] s e f) (stopped-ne e)
    | inl f ↦ rw (stream-empty fuel round s f) finished-ne
  ]
  stream-ends (suc fuel) round (r ∷ rs) s h =
      let fetched = r ∷ take 99999 rs in
      elim (Option-cases (fault (fetch round))) [
        | inr (e, f) ↦ rw (stream-fetch_fails fuel round (r ∷ rs) s e f) (stopped-ne e)
        | inl f ↦ elim (write_records-cases round fetched s) [
          | inl (e, g) ↦ rw (stream-write_fails fuel round r rs s e f g) (stopped-ne e)
          | inr g ↦ rw (stream-goes_on fuel round r rs s f g) (
              stream-ends fuel (round + 1) (drop batch_rows (r ∷ rs)) (wrote fetched s)
                (omega (arith, length-drop batch_rows (r ∷ rs))))
        ]
      ]

  -- A loop that finishes has written all the rows, in order, and has counted them.
  pub stream-IsWritten :
      (fuel round : ℕ) (rows : List (TelemetryRow R)) (s : Stream R)
      → (stream fault fuel round rows s).0 ≡ finished
      → IsWritten rows s (stream fault fuel round rows s).1
  unfolding stream
  stream-IsWritten zero round rows s = λ h. absurd (finished-ne (sym h))
  stream-IsWritten (suc fuel) round [] s = elim (Option-cases (fault (fetch round))) [
    | inr (e, f) ↦
        rw (stream-fetch_fails fuel round [] s e f) (λ h. absurd (stopped-ne_finished e h))
    | inl f ↦ rw (stream-empty fuel round s f) (λ h. empty-IsWritten s)
  ]
  stream-IsWritten (suc fuel) round (r ∷ rs) s =
      let records = r ∷ take 99999 rs in
      let rest = drop batch_rows (r ∷ rs) in
      elim (Option-cases (fault (fetch round))) [
        | inr (e, f) ↦
            rw (stream-fetch_fails fuel round (r ∷ rs) s e f)
              (λ h. absurd (stopped-ne_finished e h))
        | inl f ↦ elim (write_records-cases round records s) [
          | inl (e, g) ↦ λ h.
              absurd (stopped-ne_finished e (sym (stream-write_fails fuel round r rs s e f g) ∙ h))
          | inr g ↦ rw (stream-goes_on fuel round r rs s f g) (λ h.
              let t = stream fault fuel (round + 1) rest (wrote records s) in
              subst (λ l. IsWritten l s t.1) (take-drop_batch r rs)
                (wrote-IsWritten records rest s t.1
                  (stream-IsWritten fuel (round + 1) rest (wrote records s) h)))
        ]
      ]
