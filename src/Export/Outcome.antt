-- ===== src/Export/Outcome.antt =====
-- What the export of an hour changes, on each of its branches.
use battery_lab_sim.Prelude.{
  ℕ, ◌+◌, ◌≡◌, ◌≢◌, ◌⊎◌, refl, sym, ap, subst, ◌∙◌, inl, inr, true, ◌||◌, Option, none, some, List,
  [], ◌∷◌, ◌++◌, arith, length, Option-cases, Bool-cases, ◌==◌, ℕ_eq,
}
use battery_lab_sim.Prelude.Dict.{lookup, insert, contains, lookup-insert}
use battery_lab_sim.Export.{
  TelemetryRow, RecordBatch, HivePath_eq, path_beq, path_beq_iff, Outside, Point, acquire, close,
  file_info, record_row, Failure, Attempt, returned, raised, LedgerRow, World, of_hour,
  record_export,
}
use battery_lab_sim.Export.Hour.{
  Stream, Progress, finished, out_of_fuel, stopped, written, stream, close_writer, finish,
  after_close, after_stream, export_hour,
}
use battery_lab_sim.Export.Batch.{read_file}
use battery_lab_sim.Export.Stream.{IsWritten, stream-IsWritten}
use mathlib.Core.List.{Perm}
use mathlib.Core.List.Perm

lookup-append :
    {V : Type 0} (k j : ℕ) (v : V) (d : List (ℕ × V))
    → contains k (d ++ (j, v) ∷ []) ≡ (contains k d || j == k)
unfolding contains lookup
lookup-append k j v [] = ground arith
lookup-append k j v ((i, u) ∷ d) = ground (arith, lookup-append k j v d)

-- The rows of the archive's file of an hour.
unfoldable pub archived : {R : Type 0} → Outside R → ℕ → World R → List (TelemetryRow R)
unfolding lookup
archived out h w = read_file (written (lookup (out.date h) w.archive))

none-ne : {A : Type 0} {a : A} → none ≢ some a
none-ne = ground arith

module _ {R : Type 0} (out : Outside R) where
  -- All but the ledger and the file of the hour is the same.
  abbrev pub Frame : ℕ → World R → World R → Type 0
  Frame h w w' =
      (w'.telemetry ≡ w.telemetry)
      × (w'.received ≡ w.received)
      × ((g : ℕ) → g ≢ h → archived out g w' ≡ archived out g w)

  -- An export that raises records nothing. One that returns has recorded the hour, and no other, and
  -- the rows of the hour are in its file, unless there are none.
  abbrev pub IsOutcome : ℕ → World R → Attempt (ℕ × ℕ) × World R → Type 0
  IsOutcome h w (raised e, w') = Frame h w w' × (w'.ledger ≡ w.ledger)
  IsOutcome h w (returned counts, w') =
      Frame h w w'
      × ((g : ℕ) → contains g w'.ledger ≡ (contains g w.ledger || h == g))
      × ((of_hour h w.telemetry ≡ []) ⊎ Perm (archived out h w') (of_hour h w.telemetry))
      × (counts.0 ≡ length (out.order_by_time (of_hour h w.telemetry)))

  Frame-refl : (h : ℕ) (w : World R) → Frame h w w
  Frame-refl h w = (refl, refl, λ g n. refl)

  abbrev pub stored : ℕ → List (RecordBatch R) → World R → World R
  stored h batches w = record w { archive = insert (out.date h) batches w.archive }

  archived-stored :
      (h : ℕ) (batches : List (RecordBatch R)) (w : World R)
      → archived out h (stored h batches w) ≡ read_file batches
  unfolding archived
  archived-stored h batches w =
      let same : path_beq (out.date h) (out.date h) ≡ true =
        (path_beq_iff (out.date h) (out.date h)).1 refl in
      rw (lookup-insert (out.date h) (out.date h) batches w.archive) (rw same refl)

  archived-stored_other :
      (h g : ℕ) (batches : List (RecordBatch R)) (w : World R)
      → g ≢ h
      → archived out g (stored h batches w) ≡ archived out g w
  unfolding archived
  archived-stored_other h g batches w n =
      rw (lookup-insert (out.date h) (out.date g) batches w.archive)
        (elim (Bool-cases (path_beq (out.date h) (out.date g))) [
          | inl e ↦ absurd (n (sym (out.date_injective h g ((path_beq_iff _ _).0 e))))
          | inr e ↦ rw e refl
        ])

  stored-Frame :
      (h : ℕ) (batches : List (RecordBatch R)) (w : World R) → Frame h w (stored h batches w)
  stored-Frame h batches w = (refl, refl, λ g n. archived-stored_other h g batches w n)

  contains-record_export :
      (h g : ℕ) (row : LedgerRow) (w : World R)
      → contains g (record_export h row w).ledger ≡ (contains g w.ledger || h == g)
  unfolding record_export
  contains-record_export h g row w = elim (Bool-cases (contains h w.ledger)) [
    | inl e ↦ rw e (ground (arith, known e))
    | inr e ↦ rw e (lookup-append g h row w.ledger)
  ]
    where
      known : contains h w.ledger ≡ true → (h == g) ≡ true → contains g w.ledger ≡ true
      known e q = let same : h ≡ g = ground arith in subst (λ k. contains k w.ledger ≡ true) same e

  abbrev IsFiled : ℕ → World R → World R → Type 0
  IsFiled h w w' = (of_hour h w.telemetry ≡ []) ⊎ Perm (archived out h w') (of_hour h w.telemetry)

  abbrev rows_at : ℕ → World R → List (TelemetryRow R)
  rows_at h w = out.order_by_time (of_hour h w.telemetry)

  record_export-keeps :
      (h : ℕ) (row : LedgerRow) (w : World R)
      → (w' : List (ℕ × LedgerRow)) × (record_export h row w ≡ record w { ledger = w' })
  unfolding record_export
  record_export-keeps h row w = elim (Bool-cases (contains h w.ledger)) [
    | inl e ↦ (w.ledger, rw e refl)
    | inr e ↦ (w.ledger ++ (h, row) ∷ [], rw e refl)
  ]

  recorded-Frame :
      (h : ℕ) (row : LedgerRow) (w w' : World R) → Frame h w w' → Frame h w (record_export h row w')
  unfolding archived
  recorded-Frame h row w w' f = rw ((record_export-keeps h row w').1) (f.0, f.1, λ g n. f.2 g n)

  archived-record_export :
      (h g : ℕ) (row : LedgerRow) (w : World R)
      → archived out g (record_export h row w) ≡ archived out g w
  unfolding archived
  archived-record_export h g row w = rw ((record_export-keeps h row w).1) refl

  recorded-IsOutcome :
      (h n size : ℕ) (row : LedgerRow) (w w' : World R)
      → Frame h w w'
      → w'.ledger ≡ w.ledger
      → IsFiled h w w'
      → n ≡ length (rows_at h w)
      → IsOutcome h w (returned (n, size), record_export h row w')
  recorded-IsOutcome h n size row w w' f l a c = (
    recorded-Frame h row w w' f,
    λ g. contains-record_export h g row w' ∙ ap (λ d. contains g d || h == g) l,
    elim a [ inl e ↦ inl e | inr p ↦ inr (rw (archived-record_export h h row w') p) ],
    c,
  )

  finish-IsOutcome :
      (fault : Point → Option Failure) (h : ℕ) (s : Stream R) (w w' : World R)
      → Frame h w w'
      → w'.ledger ≡ w.ledger
      → IsFiled h w w'
      → s.row_count ≡ length (rows_at h w)
      → IsOutcome h w (finish out fault h s w')
  unfolding finish
  finish-IsOutcome fault h s w w' f l a c = elim (Bool-cases (s.row_count == 0)) [
    | inl z ↦
        rw (z, finish)
          (elim (Option-cases (fault record_row)) [
            | inr (e, q) ↦ rw q (f, l)
            | inl q ↦ rw q (recorded-IsOutcome h 0 0 _ w w' f l a (omega (arith, zero_of z, c)))
          ])
    | inr z ↦
        rw (z, finish)
          (elim (Option-cases (fault file_info)) [
            | inr (e, q) ↦ rw q (f, l)
            | inl q ↦ rw q (elim (Option-cases (fault record_row)) [
              | inr (e, q') ↦ rw q' (f, l)
              | inl q' ↦ rw q' (
                  recorded-IsOutcome h s.row_count (out.file_size (written s.writer)) _ w w' f l a
                    c)
            ])
          ])
  ]
    where
      zero_of : (s.row_count == 0) ≡ true → s.row_count ≡ 0
      zero_of z = ground arith

  close_writer-cases :
      (fault : Point → Option Failure) (h : ℕ) (writer : Option (List (RecordBatch R)))
      (w : World R)
      → ((e : Failure) × (close_writer out fault h writer w ≡ (some e, w)))
        ⊎ ((writer ≡ none) × (close_writer out fault h writer w ≡ (none, w)))
        ⊎ ((bs : List (RecordBatch R)) × (writer ≡ some bs)
            × (close_writer out fault h writer w ≡ (none, stored h bs w)))
  unfolding close_writer
  close_writer-cases fault h none w = inr (inl (refl, refl))
  close_writer-cases fault h (some bs) w = elim (Option-cases (fault close)) [
    | inr (e, q) ↦ inl (e, rw (q, close_writer) refl)
    | inl q ↦ inr (inr (bs, refl, rw (q, close_writer) refl))
  ]

  -- A file that is closed after the loop.
  closed-IsOutcome :
      (fault : Point → Option Failure) (h : ℕ) (p : Progress) (s : Stream R) (w w' : World R)
      → Frame h w w'
      → w'.ledger ≡ w.ledger
      → (p ≡ finished → IsFiled h w w' × (s.row_count ≡ length (rows_at h w)))
      → IsOutcome h w (after_close out fault h p s (none, w'))
  unfolding after_close
  closed-IsOutcome fault h finished s w w' f l a =
      finish-IsOutcome fault h s w w' f l (a refl).0 (a refl).1
  closed-IsOutcome fault h out_of_fuel s w w' f l a = (f, l)
  closed-IsOutcome fault h (stopped e) s w w' f l a = (f, l)

  after_stream-IsOutcome :
      (fault : Point → Option Failure) (h : ℕ) (p : Progress) (s : Stream R) (w : World R)
      → (p ≡ finished → IsWritten (rows_at h w) (record { writer = none; row_count = 0 }) s)
      → IsOutcome h w (after_stream out fault h (p, s) w)
  unfolding after_stream after_close
  after_stream-IsOutcome fault h p s w a = elim (close_writer-cases fault h s.writer w) [
    | inl (e, q) ↦ rw q (Frame-refl h w, refl)
    | inr (inl (n, q)) ↦ rw q (
        closed-IsOutcome fault h p s w w (Frame-refl h w) refl
          (λ q. (inl (no_rows n (a q)), omega (arith, (a q).1))))
    | inr (inr (bs, n, q)) ↦ rw q (
        closed-IsOutcome fault h p s w (stored h bs w) (stored-Frame h bs w) refl
          (λ q. (inr (filed bs n (a q)), omega (arith, (a q).1))))
  ]
    where
      empty : Stream R
      empty = record { writer = none; row_count = 0 }

      none_ordered :
          (rows : List (TelemetryRow R))
          → rows_at h w ≡ rows
          → s.writer ≡ none
          → IsWritten rows empty s
          → of_hour h w.telemetry ≡ []
      none_ordered [] e n i = sym (
          Perm.nil-eq (
            subst (λ l. Perm l (of_hour h w.telemetry)) e
              (out.order_by_time-Perm (of_hour h w.telemetry))))
      none_ordered (r ∷ rows) e n i = absurd (none-ne (sym n ∙ i.2 (inl (omega arith))))

      no_rows : s.writer ≡ none → IsWritten (rows_at h w) empty s → of_hour h w.telemetry ≡ []
      no_rows n i = none_ordered (rows_at h w) refl n i

      filed :
          (bs : List (RecordBatch R))
          → s.writer ≡ some bs
          → IsWritten (rows_at h w) empty s
          → Perm (archived out h (stored h bs w)) (of_hour h w.telemetry)
      filed bs n i =
          let read : read_file bs ≡ rows_at h w = ap (λ o. read_file (written o)) (sym n) ∙ i.0 in
          rw (archived-stored h bs w) (rw read (out.order_by_time-Perm (of_hour h w.telemetry)))

  -- Each branch of the export of an hour, whatever calls raise: if it raises, the tables and all
  -- other files are as they were. If it returns, the ledger has that hour besides those it had, the
  -- file of the hour has exactly the rows of the hour, unless there are none, and they were counted.
  pub export_hour-IsOutcome :
      (fault : Point → Option Failure) (h : ℕ) (w : World R)
      → IsOutcome h w (export_hour out fault h w)
  unfolding export_hour
  export_hour-IsOutcome fault h w = elim (Option-cases (fault acquire)) [
    | inr (e, q) ↦ rw (q, export_hour) (Frame-refl h w, refl)
    | inl q ↦
        let empty : Stream R = record { writer = none; row_count = 0 } in
        let rows = rows_at h w in
        let t = stream fault (length rows + 1) 0 rows empty in
        rw (q, export_hour)
          (after_stream-IsOutcome fault h t.0 t.1 w
            (stream-IsWritten fault (length rows + 1) 0 rows empty))
  ]
