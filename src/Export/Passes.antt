-- ===== src/Export/Passes.antt =====
-- The passes lose no row.
use battery_lab_sim.Prelude.{
  ℕ, ◌<◌, ◌≤◌, ◌≡◌, sym, ◌∙◌, Bool-cases, Option, Option-cases, inl, inr, true, false, none, some,
  List, [], ◌∷◌, arith, ℕ_eq, length, if◌then◌else◌,
}
use battery_lab_sim.Prelude.Dict.{contains}
use battery_lab_sim.Export.{
  TelemetryRow, Outside, Failure, returned, World, of_hour, insert_rows, find_pending_hours,
}
use battery_lab_sim.Export.Outcome.{archived}
use battery_lab_sim.Export.Scan.{
  IsRecent, find_pending_hours-Ascends, find_pending_hours-member, find_pending_hours_complete,
}
use battery_lab_sim.Export.Kept.{IsKept, IsSafe, insert_rows-IsSafe}
use battery_lab_sim.Export.Loop.{IsPassed, counted, of_hour-insert_rows, export_all-IsPassed}
use battery_lab_sim.Export.Pass.{
  Summary, Pass, End, at_end, broken, escaped, covers, uncaught, cutoff_of, empty_summary,
  drop_exported_chunks, after_exports, run_once, serve,
}

module _ {R : Type 0} (out : Outside R) where
  -- Each hour before the cutoff is in the ledger or has no row.
  abbrev pub IsCovered : ℕ → World R → Type 0
  IsCovered cutoff w =
      (h : ℕ) → h < cutoff → contains h w.ledger ≡ false → of_hour h w.telemetry ≡ []

  dropped-IsKept :
      (cutoff h : ℕ) (w : World R)
      → (contains h w.ledger ≡ false → h < cutoff → of_hour h w.telemetry ≡ [])
      → IsKept out h w
      → IsKept out h (record w { telemetry = (out.drop_chunks cutoff w.telemetry).1 })
  unfolding archived
  dropped-IsKept cutoff h w c (inl k) = inl k
  dropped-IsKept cutoff h w c (inr (n, e)) = inr (
    n,
    elim (out.drop_chunks_lem cutoff h w.telemetry) [
      | inl same ↦ same ∙ e
      | inr (gone, l) ↦ gone ∙ sym (c n l) ∙ e
    ],
  )

  drop_exported_chunks-IsSafe :
      (fault : Option Failure) (cutoff : ℕ) (sum : Summary) (w : World R)
      → IsCovered cutoff w
      → IsSafe out cutoff w
      → IsSafe out cutoff (drop_exported_chunks out fault cutoff sum w).1
  unfolding drop_exported_chunks
  drop_exported_chunks-IsSafe (some e) cutoff sum w c s = s
  drop_exported_chunks-IsSafe none cutoff sum w c s =
      (λ h. dropped-IsKept cutoff h w (λ n l. c h l n) (s.0 h), s.1)

  covers-length : (n : ℕ) (pending : List ℕ) → covers n pending ≡ true → n ≡ length pending
  covers-length n [] h = ground arith
  covers-length n (k ∷ pending) h = ground arith

  -- When all pending hours were exported, every hour before the cutoff is covered.
  pub passed-IsCovered :
      (cutoff m : ℕ) (w w' : World R)
      → IsPassed out cutoff (find_pending_hours cutoff w) 0 w m w'
      → m ≡ length (find_pending_hours cutoff w)
      → IsCovered cutoff w'
  passed-IsCovered cutoff m w w' p e h l n =
      p.table h l
      ∙ find_pending_hours_complete cutoff h w l (ground (arith, p.recorded h))
          (ground (arith, p.complete (omega arith) h))

  pub insert_rows-IsCovered :
      (cutoff : ℕ) (rows : List (TelemetryRow R)) (w : World R)
      → IsRecent cutoff rows
      → IsCovered cutoff w
      → IsCovered cutoff (insert_rows rows w)
  unfolding insert_rows
  insert_rows-IsCovered cutoff rows w late c h l n =
      of_hour-insert_rows out cutoff h rows w late l ∙ c h l n

  dropped_or_not-IsSafe :
      (cutoff : ℕ) (p : Pass R) (w : World R) (sum : Summary) (w' : World R)
      → IsPassed out cutoff (find_pending_hours cutoff w) 0 w sum.exported_hours w'
      → IsRecent cutoff p.before_drop
      → let all = covers sum.exported_hours (find_pending_hours cutoff w) in
        let dropped =
          drop_exported_chunks out p.drop_fault cutoff sum (insert_rows p.before_drop w') in
        IsSafe out cutoff (if all then dropped else (returned sum, w')).1
  dropped_or_not-IsSafe cutoff p w sum w' passed late =
      let pending = find_pending_hours cutoff w in
      elim (Bool-cases (covers sum.exported_hours pending)) [
        | inr e ↦ rw e passed.safe
        | inl e ↦ rw e (
            drop_exported_chunks-IsSafe p.drop_fault cutoff sum (insert_rows p.before_drop w')
              (insert_rows-IsCovered cutoff p.before_drop w' late (
                passed-IsCovered cutoff sum.exported_hours w w' passed
                  (covers-length sum.exported_hours pending e)))
              (insert_rows-IsSafe out cutoff p.before_drop w' late passed.safe))
      ]

  after_exports-IsSafe :
      (cutoff : ℕ) (p : Pass R) (w : World R) (r : End × Summary × World R)
      → IsPassed out cutoff (find_pending_hours cutoff w) 0 w (counted out r) r.2
      → IsRecent cutoff p.before_drop
      → IsSafe out cutoff (after_exports out p cutoff (find_pending_hours cutoff w) r).1
  unfolding after_exports
  after_exports-IsSafe cutoff p w (escaped e, sum, w') passed late = passed.safe
  after_exports-IsSafe cutoff p w (at_end, sum, w') passed late =
      dropped_or_not-IsSafe cutoff p w sum w' passed late
  after_exports-IsSafe cutoff p w (broken, sum, w') passed late =
      dropped_or_not-IsSafe cutoff p w sum w' passed late

  -- The cutoffs do not go back, from `before` on, and a row that comes is not older than the cutoff of
  -- the last pass that began before it, or than `before`.
  abbrev pub IsTimely : ℕ → ℕ → List (Pass R) → Type 0
  IsTimely age_hours before [] = Unit
  IsTimely age_hours before (p ∷ ps) =
      (before ≤ cutoff_of p.now age_hours)
      × IsRecent before p.before_scan
      × IsRecent (cutoff_of p.now age_hours) p.before_drop
      × ((h : ℕ) → IsRecent (cutoff_of p.now age_hours) (p.turn h).arrived)
      × IsTimely age_hours (cutoff_of p.now age_hours) ps

  pub later-IsSafe : (b c : ℕ) (w : World R) → b ≤ c → IsSafe out b w → IsSafe out c w
  later-IsSafe b c w l s = (s.0, λ h m. omega (arith, s.1 h m))

  run_once-IsSafe :
      (age_hours before : ℕ) (p : Pass R) (ps : List (Pass R)) (w : World R)
      → IsTimely age_hours before (p ∷ ps)
      → IsSafe out before w
      → IsSafe out (cutoff_of p.now age_hours) (run_once out age_hours p w).1
  unfolding run_once
  run_once-IsSafe age_hours before p ps w t s =
      let cutoff = cutoff_of p.now age_hours in
      let w' = insert_rows p.before_scan w in
      let s' =
        later-IsSafe before cutoff w' t.0 (insert_rows-IsSafe out before p.before_scan w t.1 s) in
      elim (Option-cases p.scan_fault) [
        | inr (e, q) ↦ rw (q, run_once) s'
        | inl q ↦
            rw (q, run_once)
              (after_exports-IsSafe cutoff p w' _
                (export_all-IsPassed out cutoff 0 p.turn (find_pending_hours cutoff w')
                  empty_summary w' t.3 s'
                  (
                    find_pending_hours-Ascends cutoff w',
                    λ k. find_pending_hours-member cutoff k w',
                  ))
                t.2)
      ]

  -- If the cutoffs of the passes do not go back, the first is not before the hour `before`, no row
  -- comes that is older than the cutoff of a pass that began before it, or older than `before`, and at
  -- the start each hour was kept and the ledger's hours were before `before`, then after the passes,
  -- whatever calls fail in them, each hour is kept: it is in the ledger and its file has exactly the
  -- rows of the hour that were ever inserted, unless there are none, or it is not in the ledger and
  -- they are all in the table.
  pub serve-IsKept :
      (age_hours before : ℕ) (ps : List (Pass R)) (w : World R) (h : ℕ)
      → IsTimely age_hours before ps
      → IsSafe out before w
      → IsKept out h (serve out age_hours ps w).1
  unfolding serve
  serve-IsKept age_hours before [] w h t s = s.0 h
  serve-IsKept age_hours before (p ∷ ps) w h t s =
      let r = run_once out age_hours p w in
      let s' = run_once-IsSafe age_hours before p ps w t s in
      elim (Option-cases (uncaught r.0)) [
        | inr (e, q) ↦ rw (q, serve) (s'.0 h)
        | inl q ↦ rw (q, serve) (serve-IsKept age_hours (cutoff_of p.now age_hours) ps r.1 h t.4 s')
      ]
