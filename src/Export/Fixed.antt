-- ===== src/Export/Fixed.antt =====
-- The file of a recorded hour is not written again.
use battery_lab_sim.Prelude.{
  ℕ, ◌≡◌, ◌≢◌, refl, ap, ◌∙◌, Bool-cases, Option, Option-cases, inl, inr, true, false, none, some,
  List, [], ◌∷◌, arith, ℕ_eq, if◌then◌else◌,
}
use battery_lab_sim.Prelude.Dict.{contains}
use battery_lab_sim.Schedule.Bench.Normal.{member}
use battery_lab_sim.Export.{
  Outside, Failure, Attempt, returned, raised, World, insert_rows, find_pending_hours,
}
use battery_lab_sim.Export.Hour.{export_hour}
use battery_lab_sim.Export.Outcome.{archived, IsOutcome, export_hour-IsOutcome}
use battery_lab_sim.Export.Kept.{ne_of}
use battery_lab_sim.Export.Scan.{find_pending_hours-member}
use battery_lab_sim.Export.Pass.{
  Summary, Turn, Pass, End, at_end, broken, escaped, covers, uncaught, cutoff_of, after_export,
  export_all, empty_summary, drop_exported_chunks, after_exports, run_once, serve,
}

module _ {R : Type 0} (out : Outside R) where
  abbrev IsFixed : ℕ → World R → World R → Type 0
  IsFixed h w w' =
      (archived out h w' ≡ archived out h w)
      × (contains h w.ledger ≡ true → contains h w'.ledger ≡ true)

  trans-IsFixed : (h : ℕ) (u v w : World R) → IsFixed h u v → IsFixed h v w → IsFixed h u w
  trans-IsFixed h u v w p q = (q.0 ∙ p.0, λ c. q.1 (p.1 c))

  outcome-IsFixed :
      (h k : ℕ) (w : World R) (r : Attempt (ℕ × ℕ) × World R)
      → h ≢ k
      → IsOutcome out k w r
      → IsFixed h w r.1
  outcome-IsFixed h k w (raised e, w') n ((t, v, a), l) = (a h n, λ c. ap (contains h) l ∙ c)
  outcome-IsFixed h k w (returned counts, w') n ((t, v, a), l, f, c) =
      (a h n, λ c. ground (arith, l h))

  after_export-IsFixed :
      (h : ℕ) (rest : Summary → World R → End × Summary × World R) (sum : Summary) (w : World R)
      (r : Attempt (ℕ × ℕ) × World R)
      → ((sum' : Summary) (w' : World R) → IsFixed h w' (rest sum' w').2)
      → IsFixed h w r.1
      → IsFixed h w (after_export rest sum r).2
  unfolding after_export
  after_export-IsFixed h rest sum w (raised e, w') go_on f = f
  after_export-IsFixed h rest sum w (returned (rc, bc), w') go_on f =
      trans-IsFixed h w w' _ f (go_on _ w')

  export_all-IsFixed :
      (h : ℕ) (turn : ℕ → Turn R) (hs : List ℕ) (sum : Summary) (w : World R)
      → member h hs ≡ false
      → IsFixed h w (export_all out turn hs sum w).2
  unfolding export_all insert_rows archived
  export_all-IsFixed h turn [] sum w m = (refl, λ c. c)
  export_all-IsFixed h turn (k ∷ hs) sum w m =
      let w' = insert_rows (turn k).arrived w in
      after_export-IsFixed h (export_all out turn hs) sum w (export_hour out (turn k).fault k w')
        (λ sum' v. export_all-IsFixed h turn hs sum' v (ground arith))
        (outcome-IsFixed h k w' _ (ne_of h k (ground arith))
          (export_hour-IsOutcome out (turn k).fault k w'))

  dropped-IsFixed :
      (h : ℕ) (fault : Option Failure) (cutoff : ℕ) (sum : Summary) (w : World R)
      → IsFixed h w (drop_exported_chunks out fault cutoff sum w).1
  unfolding archived drop_exported_chunks
  dropped-IsFixed h none cutoff sum w = (refl, λ c. c)
  dropped-IsFixed h (some e) cutoff sum w = (refl, λ c. c)

  tail-IsFixed :
      (h : ℕ) (p : Pass R) (cutoff : ℕ) (pending : List ℕ) (w : World R) (sum : Summary)
      (w' : World R)
      → IsFixed h w w'
      → let dropped =
          drop_exported_chunks out p.drop_fault cutoff sum (insert_rows p.before_drop w') in
        IsFixed h w (if covers sum.exported_hours pending then dropped else (returned sum, w')).1
  unfolding insert_rows archived
  tail-IsFixed h p cutoff pending w sum w' f =
      elim (Bool-cases (covers sum.exported_hours pending)) [
        | inr e ↦ rw e f
        | inl e ↦
            let v = insert_rows p.before_drop w' in
            rw e (
              trans-IsFixed h w w' (drop_exported_chunks out p.drop_fault cutoff sum v).1 f
                (dropped-IsFixed h p.drop_fault cutoff sum v))
      ]

  after_exports-IsFixed :
      (h : ℕ) (p : Pass R) (cutoff : ℕ) (pending : List ℕ) (w : World R)
      (r : End × Summary × World R)
      → IsFixed h w r.2
      → IsFixed h w (after_exports out p cutoff pending r).1
  unfolding after_exports
  after_exports-IsFixed h p cutoff pending w (escaped e, sum, w') f = f
  after_exports-IsFixed h p cutoff pending w (at_end, sum, w') f =
      tail-IsFixed h p cutoff pending w sum w' f
  after_exports-IsFixed h p cutoff pending w (broken, sum, w') f =
      tail-IsFixed h p cutoff pending w sum w' f

  run_once-IsFixed :
      (age_hours h : ℕ) (p : Pass R) (w : World R)
      → contains h w.ledger ≡ true
      → IsFixed h w (run_once out age_hours p w).1
  unfolding run_once insert_rows archived
  run_once-IsFixed age_hours h p w c = elim (Option-cases p.scan_fault) [
    | inr (e, q) ↦ rw (q, run_once) (refl, λ c. c)
    | inl q ↦
        let cutoff = cutoff_of p.now age_hours in
        let w' = insert_rows p.before_scan w in
        let pending = find_pending_hours cutoff w' in
        rw (q, run_once)
          (after_exports-IsFixed h p cutoff pending w
            (export_all out p.turn pending empty_summary w')
            (export_all-IsFixed h p.turn pending empty_summary w'
              (ground (arith, find_pending_hours-member cutoff h w'))))
  ]

  -- The file of an hour that is in the ledger keeps its rows and gets no others, whatever rows come
  -- and whatever calls fail in the passes.
  pub serve-archived :
      (age_hours h : ℕ) (ps : List (Pass R)) (w : World R)
      → contains h w.ledger ≡ true
      → archived out h (serve out age_hours ps w).1 ≡ archived out h w
  unfolding serve
  serve-archived age_hours h [] w c = refl
  serve-archived age_hours h (p ∷ ps) w c =
      let r = run_once out age_hours p w in
      let f = run_once-IsFixed age_hours h p w c in
      elim (Option-cases (uncaught r.0)) [
        | inr (e, q) ↦ rw (q, serve) f.0
        | inl q ↦ rw (q, serve) (serve-archived age_hours h ps r.1 (f.1 c) ∙ f.0)
      ]
