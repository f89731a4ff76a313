-- ===== src/Export/Kept.antt =====
-- No row is lost: an hour is in the ledger and its rows are in its file, or its rows are in the
-- table.
use battery_lab_sim.Prelude.{
  ℕ, ◌<◌, ◌≡◌, ◌≢◌, ◌⊎◌, refl, sym, ap, subst, ◌∙◌, inl, inr, true, false, List, [], arith, ◌==◌,
  ℕ_eq, Bool-cases, ==_iff,
}
use battery_lab_sim.Prelude.Dict.{contains}
use battery_lab_sim.Export.{
  TelemetryRow, Outside, Attempt, returned, raised, World, of_hour, insert_rows,
}
use battery_lab_sim.Export.Outcome.{archived, IsOutcome}
use battery_lab_sim.Export.Scan.{of_hour-append, IsRecent, of_hour-IsRecent}
use mathlib.Core.List.{Perm}
use mathlib.Core.List.{append-nil}

true-ne : true ≢ false
true-ne = ground arith

pub ne_of : (g h : ℕ) → (g == h) ≡ false → g ≢ h
ne_of g h q e = ground arith

module _ {R : Type 0} (out : Outside R) where
  -- The hour is in the ledger and all its rows that were ever inserted are in its file, or it is not
  -- and they are all in the table.
  abbrev pub IsKept : ℕ → World R → Type 0
  IsKept h w =
      ((contains h w.ledger ≡ true)
        × ((of_hour h w.received ≡ []) ⊎ Perm (archived out h w) (of_hour h w.received)))
      ⊎ ((contains h w.ledger ≡ false) × (of_hour h w.telemetry ≡ of_hour h w.received))

  -- Every hour is kept, and the hours of the ledger are before the cutoff.
  abbrev pub IsSafe : ℕ → World R → Type 0
  IsSafe cutoff w = ((h : ℕ) → IsKept h w) × ((h : ℕ) → contains h w.ledger ≡ true → h < cutoff)

  pub IsKept-unrecorded :
      (h : ℕ) (w : World R)
      → IsKept h w
      → contains h w.ledger ≡ false
      → of_hour h w.telemetry ≡ of_hour h w.received
  IsKept-unrecorded h w (inl (c, a)) n = absurd (true-ne (sym c ∙ n))
  IsKept-unrecorded h w (inr e) n = e.1

  insert_rows-IsKept :
      (h : ℕ) (rows : List (TelemetryRow R)) (w : World R)
      → (contains h w.ledger ≡ true → of_hour h rows ≡ [])
      → IsKept h w
      → IsKept h (insert_rows rows w)
  unfolding insert_rows archived
  insert_rows-IsKept h rows w none_new (inl (c, a)) = inl (
    c,
    rw (of_hour-append h w.received rows)
        (rw (none_new c) (rw (append-nil (of_hour h w.received)) a)),
  )
  insert_rows-IsKept h rows w none_new (inr (n, e)) = inr (
    n,
    rw (of_hour-append h w.received rows) (rw (of_hour-append h w.telemetry rows) (rw e refl)),
  )

  pub insert_rows-IsSafe :
      (cutoff : ℕ) (rows : List (TelemetryRow R)) (w : World R)
      → IsRecent cutoff rows
      → IsSafe cutoff w
      → IsSafe cutoff (insert_rows rows w)
  unfolding insert_rows
  insert_rows-IsSafe cutoff rows w p s = (
    λ h. insert_rows-IsKept h rows w (λ c. of_hour-IsRecent cutoff h rows p (s.1 h c)) (s.0 h),
    s.1,
  )

  same-IsKept :
      (g : ℕ) (w w' : World R)
      → w'.telemetry ≡ w.telemetry
      → w'.received ≡ w.received
      → archived out g w' ≡ archived out g w
      → contains g w'.ledger ≡ contains g w.ledger
      → IsKept g w
      → IsKept g w'
  same-IsKept g w w' t r a l (inl (c, inl n)) = inl (l ∙ c, inl (ap (of_hour g) r ∙ n))
  same-IsKept g w w' t r a l (inl (c, inr p)) = inl (
    l ∙ c,
    inr (
        subst (λ l. Perm (archived out g w') l) (ap (of_hour g) (sym r))
          (subst (λ l. Perm l (of_hour g w.received)) (sym a) p)),
  )
  same-IsKept g w w' t r a l (inr (n, e)) =
      inr (l ∙ n, ap (of_hour g) t ∙ e ∙ ap (of_hour g) (sym r))

  in_table-IsKept :
      (g : ℕ) (w w' : World R)
      → w'.telemetry ≡ w.telemetry
      → w'.received ≡ w.received
      → of_hour g w.telemetry ≡ of_hour g w.received
      → contains g w'.ledger ≡ false
      → IsKept g w'
  in_table-IsKept g w w' t r e n = inr (n, ap (of_hour g) t ∙ e ∙ ap (of_hour g) (sym r))

  filed-IsKept :
      (g : ℕ) (w w' : World R)
      → w'.received ≡ w.received
      → of_hour g w.telemetry ≡ of_hour g w.received
      → contains g w'.ledger ≡ true
      → (of_hour g w.telemetry ≡ []) ⊎ Perm (archived out g w') (of_hour g w.telemetry)
      → IsKept g w'
  filed-IsKept g w w' r e c (inl n) = inl (c, inl (ap (of_hour g) r ∙ sym e ∙ n))
  filed-IsKept g w w' r e c (inr p) =
      inl (c, inr (subst (λ l. Perm (archived out g w') l) (e ∙ ap (of_hour g) (sym r)) p))

  -- An export keeps every hour, whether it raises or returns.
  pub outcome-IsSafe :
      (cutoff h : ℕ) (w : World R) (r : Attempt (ℕ × ℕ) × World R)
      → IsOutcome out h w r
      → contains h w.ledger ≡ false
      → h < cutoff
      → IsSafe cutoff w
      → IsSafe cutoff r.1
  outcome-IsSafe cutoff h w (raised e, w') ((t, v, a), l) n b s = (
    λ g. elim (Bool-cases (g == h)) [
      | inl q ↦
          let absent : contains g w.ledger ≡ false = rw ((==_iff g h).0 q) n in
          in_table-IsKept g w w' t v (IsKept-unrecorded g w (s.0 g) absent)
            (ap (λ d. contains g d) l ∙ absent)
      | inr q ↦ same-IsKept g w w' t v (a g (ne_of g h q)) (ap (λ d. contains g d) l) (s.0 g)
    ],
    λ g c. s.1 g (ap (λ d. contains g d) (sym l) ∙ c),
  )
  outcome-IsSafe cutoff h w (returned counts, w') ((t, v, a), l, f, c) n b s = (
    λ g. elim (Bool-cases (g == h)) [
      | inl q ↦
          let same : g ≡ h = (==_iff g h).0 q in
          rw same (filed-IsKept h w w' v (IsKept-unrecorded h w (s.0 h) n) (ground (arith, l h)) f)
      | inr q ↦ same-IsKept g w w' t v (a g (ne_of g h q)) (ground (arith, l g)) (s.0 g)
    ],
    λ g m. ground (arith, l g, s.1 g),
  )
