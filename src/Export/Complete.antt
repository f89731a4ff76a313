-- ===== src/Export/Complete.antt =====
-- Without failures an export returns, and a pass covers every hour before its cutoff.
use battery_lab_sim.Prelude.{
  ℕ, zero, suc, ◌+◌, ◌*◌, ◌≤◌, ◌≡◌, ◌≢◌, refl, ◌∙◌, Bool-cases, Option, inl, inr, none, some, List,
  [], ◌∷◌, arith, ℕ_eq, ◌==◌, length,
}
use battery_lab_sim.Export.{
  batch_rows, TelemetryRow, RecordBatch, Outside, Point, fetch, Failure, Attempt, returned, raised,
  World, insert_rows, of_hour, find_pending_hours,
}
use battery_lab_sim.Export.Hour.{
  take, drop, Stream, Progress, finished, stream, write_records, open_fault, close_writer, finish,
  after_close, after_stream, export_hour,
}
use battery_lab_sim.Export.Stream.{
  wrote, stream-empty, stream-goes_on, length-drop, length-map_time,
}
use battery_lab_sim.Export.Outcome.{stored}
use battery_lab_sim.Export.Scan.{IsRecent, find_pending_hours-Ascends, find_pending_hours-member}
use battery_lab_sim.Export.Kept.{IsSafe, insert_rows-IsSafe}
use battery_lab_sim.Export.Loop.{counted, export_all-IsPassed}
use battery_lab_sim.Export.Passes.{
  IsCovered, IsTimely, passed-IsCovered, insert_rows-IsCovered, later-IsSafe,
}
use battery_lab_sim.Export.Pass.{
  Summary, Turn, Pass, End, at_end, covers, cutoff_of, after_export, export_all, empty_summary,
  drop_exported_chunks, after_exports, run_once,
}

abbrev pub HasNoFault : (Point → Option Failure) → Type 0
HasNoFault fault = (p : Point) → fault p ≡ none

module _ {R : Type 0} (fault : Point → Option Failure) (ok : HasNoFault fault) where
  open_fault-none : (writer : Option (List (RecordBatch R))) → open_fault fault writer ≡ none
  unfolding open_fault
  open_fault-none none = ok _
  open_fault-none (some bs) = refl

  write_records-none :
      (round : ℕ) (records : List (TelemetryRow R)) (s : Stream R)
      → write_records fault round records s ≡ (none, wrote records s)
  unfolding write_records
  write_records-none round records s =
      rw (open_fault-none s.writer, write_records)
        (rw (ok (Point.write_batch round)) (rw (length-map_time records) refl))

  stream-finishes :
      (fuel round : ℕ) (rows : List (TelemetryRow R)) (s : Stream R)
      → length rows + batch_rows ≤ fuel * batch_rows
      → (stream fault fuel round rows s).0 ≡ finished
  unfolding batch_rows
  stream-finishes zero round rows s h = absurd (omega arith)
  stream-finishes (suc fuel) round [] s h =
      rw (stream-empty fault fuel round s (ok (fetch round))) refl
  stream-finishes (suc fuel) round (r ∷ rs) s h =
      let fetched = r ∷ take 99999 rs in
      rw
        (stream-goes_on fault fuel round r rs s (ok (fetch round))
          (write_records-none round fetched s))
        (stream-finishes fuel (round + 1) (drop batch_rows (r ∷ rs)) (wrote fetched s)
          (omega (arith, length-drop batch_rows (r ∷ rs))))

raised-ne : {A : Type 0} (e : Failure) (a : A) → raised e ≢ returned a
raised-ne e a = ground arith

abbrev pub IsReturned : {A B : Type 0} → Attempt A × B → Type 0
IsReturned {A} r = (a : A) × (r.0 ≡ returned a)

module _ {R : Type 0} (out : Outside R) (fault : Point → Option Failure)
    (ok : HasNoFault fault) where
  finish-IsReturned : (h : ℕ) (s : Stream R) (w : World R) → IsReturned (finish out fault h s w)
  unfolding finish
  finish-IsReturned h s w = elim (Bool-cases (s.row_count == 0)) [
    | inl z ↦ rw (z, finish) (rw (ok Point.record_row) (_, refl))
    | inr z ↦ rw (z, finish) (rw (ok Point.file_info) (rw (ok Point.record_row) (_, refl)))
  ]

  closed-IsReturned :
      (h : ℕ) (s : Stream R) (w : World R) (writer : Option (List (RecordBatch R)))
      → IsReturned (after_close out fault h finished s (close_writer out fault h writer w))
  unfolding close_writer after_close
  closed-IsReturned h s w none = finish-IsReturned h s w
  closed-IsReturned h s w (some bs) =
      rw (ok Point.close, close_writer) (finish-IsReturned h s (stored out h bs w))

  after_stream-IsReturned :
      (h : ℕ) (p : Progress) (s : Stream R) (w : World R)
      → p ≡ finished
      → IsReturned (after_stream out fault h (p, s) w)
  unfolding after_stream
  after_stream-IsReturned h p s w q = rw q (closed-IsReturned h s w s.writer)

  -- An export in which no call raises returns: its loop ends, however many rows the hour has.
  pub export_hour-IsReturned : (h : ℕ) (w : World R) → IsReturned (export_hour out fault h w)
  unfolding export_hour batch_rows
  export_hour-IsReturned h w =
      let empty : Stream R = record { writer = none; row_count = 0 } in
      let rows = out.order_by_time (of_hour h w.telemetry) in
      rw (ok Point.acquire, export_hour)
        (after_stream-IsReturned h _ _ w
          (stream-finishes fault ok (length rows + 1) 0 rows empty (omega arith)))

module _ {R : Type 0} (out : Outside R) where
  after_export-counted :
      (rest : Summary → World R → End × Summary × World R) (n : ℕ) (sum : Summary)
      (r : Attempt (ℕ × ℕ) × World R)
      → IsReturned r
      → ((sum' : Summary) (w' : World R)
          → (rest sum' w').0 ≡ at_end × (counted out (rest sum' w') ≡ sum'.exported_hours + n))
      → let after = after_export rest sum r in
        (after.0 ≡ at_end) × (counted out after ≡ sum.exported_hours + suc n)
  unfolding after_export
  after_export-counted rest n sum (raised e, w) (a, q) go_on = absurd (raised-ne e a q)
  after_export-counted rest n sum (returned (rc, bc), w) a go_on =
      let next = go_on _ w in (next.0, omega (arith, next.1))

  -- The loop exports every hour.
  export_all-counted :
      (turn : ℕ → Turn R) (hs : List ℕ) (sum : Summary) (w : World R)
      → ((h : ℕ) → HasNoFault (turn h).fault)
      → let after = export_all out turn hs sum w in
        (after.0 ≡ at_end) × (counted out after ≡ sum.exported_hours + length hs)
  unfolding export_all
  export_all-counted turn [] sum w ok = (refl, omega arith)
  export_all-counted turn (h ∷ hs) sum w ok =
      after_export-counted (export_all out turn hs) (length hs) sum _
        (export_hour-IsReturned out (turn h).fault (ok h) h (insert_rows (turn h).arrived w))
        (λ sum' w'. export_all-counted turn hs sum' w' ok)

  drop_exported_chunks-IsCovered :
      (fault : Option Failure) (cutoff : ℕ) (sum : Summary) (w : World R)
      → IsCovered out cutoff w
      → IsCovered out cutoff (drop_exported_chunks out fault cutoff sum w).1
  unfolding drop_exported_chunks
  drop_exported_chunks-IsCovered (some e) cutoff sum w c h l n = c h l n
  drop_exported_chunks-IsCovered none cutoff sum w c h l n =
      elim (out.drop_chunks_lem cutoff h w.telemetry) [
        | inl same ↦ same ∙ c h l n
        | inr (gone, l') ↦ gone
      ]

  after_exports-IsCovered :
      (cutoff : ℕ) (p : Pass R) (pending : List ℕ) (end : End) (sum : Summary) (w : World R)
      → IsRecent cutoff p.before_drop
      → end ≡ at_end
      → IsCovered out cutoff w
      → IsCovered out cutoff (after_exports out p cutoff pending (end, sum, w)).1
  unfolding after_exports
  after_exports-IsCovered cutoff p pending end sum w late q c =
      rw q (elim (Bool-cases (covers sum.exported_hours pending)) [
        | inr e ↦ rw (e, after_exports) c
        | inl e ↦
            rw (e, after_exports)
              (drop_exported_chunks-IsCovered p.drop_fault cutoff sum (insert_rows p.before_drop w)
                (insert_rows-IsCovered out cutoff p.before_drop w late c))
      ])

  -- If neither the scan nor the export of an hour fails in a pass, its cutoff is not before `before`,
  -- the rows that come before its scan are not older than `before` and those that come later not
  -- older than its cutoff, and at the start each hour was kept and the ledger's hours were before
  -- `before`, then after the pass each hour before its cutoff is in the ledger or has no row in the
  -- table, also if the statement that drops the chunks fails.
  pub run_once-IsCovered :
      (age_hours before : ℕ) (p : Pass R) (w : World R)
      → p.scan_fault ≡ none
      → ((h : ℕ) → HasNoFault (p.turn h).fault)
      → IsTimely out age_hours before (p ∷ [])
      → IsSafe out before w
      → IsCovered out (cutoff_of p.now age_hours) (run_once out age_hours p w).1
  unfolding run_once
  run_once-IsCovered age_hours before p w scan ok t s =
      let cutoff = cutoff_of p.now age_hours in
      let w' = insert_rows p.before_scan w in
      let pending = find_pending_hours cutoff w' in
      let s' =
        later-IsSafe out before cutoff w' t.0
          (insert_rows-IsSafe out before p.before_scan w t.1 s) in
      let r = export_all out p.turn pending empty_summary w' in
      let passed =
        export_all-IsPassed out cutoff 0 p.turn pending empty_summary w' t.3 s'
          (find_pending_hours-Ascends cutoff w', λ k. find_pending_hours-member cutoff k w') in
      let all = export_all-counted p.turn pending empty_summary w' ok in
      rw (scan, run_once)
        (after_exports-IsCovered cutoff p pending r.0 r.1 r.2 t.2 all.0
          (passed-IsCovered out cutoff (counted out r) w' r.2 passed (omega (arith, all.1))))
