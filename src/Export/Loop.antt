-- ===== src/Export/Loop.antt =====
-- The loop over the pending hours keeps every hour, and records them all if it counts them all.
use battery_lab_sim.Prelude.{
  ℕ, ◌+◌, ◌<◌, ◌≤◌, ◌≡◌, refl, ap, ◌∙◌, Bool-cases, inl, inr, true, false, ◌||◌, List, [], ◌∷◌,
  arith, ◌==◌, ℕ_eq, length,
}
use battery_lab_sim.Prelude.Dict.{contains}
use battery_lab_sim.Schedule.Bench.Normal.{member, Ascends}
use battery_lab_sim.Export.{
  TelemetryRow, Outside, Attempt, returned, raised, World, of_hour, insert_rows,
}
use battery_lab_sim.Export.Hour.{export_hour}
use battery_lab_sim.Export.Outcome.{IsOutcome, export_hour-IsOutcome}
use battery_lab_sim.Export.Scan.{IsRecent, of_hour-append, of_hour-IsRecent}
use battery_lab_sim.Export.Kept.{IsSafe, insert_rows-IsSafe, outcome-IsSafe}
use battery_lab_sim.Export.Pass.{Summary, Turn, End, after_export, export_all}
use mathlib.Core.List.{append-nil}

member-Ascends : (b k : ℕ) (hs : List ℕ) → Ascends b hs → member k hs ≡ true → b ≤ k
member-Ascends b k [] a m = cc
member-Ascends b k (h ∷ hs) a m = ground (arith, member-Ascends (h + 1) k hs)

module _ {R : Type 0} (out : Outside R) where
  -- What the loop over the hours `hs` from the count `n` and the state `w` comes to.
  pub record IsPassed (cutoff : ℕ) (hs : List ℕ) (n : ℕ) (w : World R) (m : ℕ) (w' : World R)
      : Type 0 where
    pub safe : IsSafe out cutoff w'
    pub table : (g : ℕ) → g < cutoff → of_hour g w'.telemetry ≡ of_hour g w.telemetry
    pub recorded : (g : ℕ) → contains g w.ledger ≡ true → contains g w'.ledger ≡ true
    pub at_most : m ≤ n + length hs
    pub complete : m ≡ n + length hs → (k : ℕ) → member k hs ≡ true → contains k w'.ledger ≡ true

  -- Hours that are to be exported.
  abbrev pub IsPending : ℕ → ℕ → List ℕ → World R → Type 0
  IsPending cutoff b hs w =
      Ascends b hs × ((k : ℕ) → member k hs ≡ true → (k < cutoff) × (contains k w.ledger ≡ false))

  pub of_hour-insert_rows :
      (cutoff g : ℕ) (rows : List (TelemetryRow R)) (w : World R)
      → IsRecent cutoff rows
      → g < cutoff
      → of_hour g (insert_rows rows w).telemetry ≡ of_hour g w.telemetry
  unfolding insert_rows
  of_hour-insert_rows cutoff g rows w p l =
      rw (of_hour-append g w.telemetry rows)
        (rw (of_hour-IsRecent cutoff g rows p l) (append-nil (of_hour g w.telemetry)))

  still-IsPending :
      (cutoff b h : ℕ) (hs : List ℕ) (w w' : World R)
      → IsPending cutoff b (h ∷ hs) w
      → ((g : ℕ) → contains g w'.ledger ≡ (contains g w.ledger || h == g))
      → IsPending cutoff (h + 1) hs w'
  still-IsPending cutoff b h hs w w' p l =
      (p.0.1, λ k m. ground (arith, p.1 k, l k, member-Ascends (h + 1) k hs p.0.1))

  abbrev pub counted : End × Summary × World R → ℕ
  counted r = r.1.exported_hours

  -- The step, on the state after the rows of the turn have come.
  after_export-IsPassed :
      (cutoff b h : ℕ) (hs : List ℕ) (rest : Summary → World R → End × Summary × World R)
      (sum : Summary) (w : World R) (r : Attempt (ℕ × ℕ) × World R)
      → ((sum' : Summary) (w' : World R)
          → IsSafe out cutoff w'
          → IsPending cutoff (h + 1) hs w'
          → IsPassed cutoff hs sum'.exported_hours w' (counted (rest sum' w')) (rest sum' w').2)
      → IsSafe out cutoff w
      → IsPending cutoff b (h ∷ hs) w
      → IsOutcome out h w r
      → IsPassed cutoff
          (h ∷ hs)
          sum.exported_hours
          w
          (counted (after_export rest sum r))
          (after_export rest sum r).2
  unfolding after_export
  after_export-IsPassed cutoff b h hs rest sum w (raised e, w') go_on s p o =
      let first = p.1 h (ground arith) in
      record {
        safe = outcome-IsSafe out cutoff h w (raised e, w') o first.1 first.0 s;
        table = λ g l. ap (of_hour g) o.0.0;
        recorded = λ g m. ap (contains g) o.1 ∙ m;
        at_most = omega arith;
        complete = λ q. absurd (omega arith);
      }
  after_export-IsPassed cutoff b h hs rest sum w (returned counts, w') go_on s p o =
      let first = p.1 h (ground arith) in
      let next =
        go_on _ w' (outcome-IsSafe out cutoff h w (returned counts, w') o first.1 first.0 s)
          (still-IsPending cutoff b h hs w w' p o.1) in
      record {
        safe = next.safe;
        table = λ g l. next.table g l ∙ ap (of_hour g) o.0.0;
        recorded = λ g m. next.recorded g (ground (arith, o.1 g));
        at_most = omega (arith, next.at_most);
        complete = λ q k m. elim (Bool-cases (k == h)) [
          | inl e ↦ next.recorded k (ground (arith, o.1 k))
          | inr e ↦ next.complete (omega arith) k (ground arith)
        ];
      }

  -- What the loop over pending hours comes to, when the rows that come on the way are recent: every
  -- hour is kept, and if all were counted they are all in the ledger.
  pub export_all-IsPassed :
      (cutoff b : ℕ) (turn : ℕ → Turn R) (hs : List ℕ) (sum : Summary) (w : World R)
      → ((h : ℕ) → IsRecent cutoff (turn h).arrived)
      → IsSafe out cutoff w
      → IsPending cutoff b hs w
      → IsPassed cutoff hs sum.exported_hours w
          (counted (export_all out turn hs sum w))
          (export_all out turn hs sum w).2
  unfolding export_all insert_rows
  export_all-IsPassed cutoff b turn [] sum w late s p = record {
    safe = s;
    table = λ g l. refl;
    recorded = λ g m. m;
    at_most = omega arith;
    complete = λ q k m. cc;
  }
  export_all-IsPassed cutoff b turn (h ∷ hs) sum w late s p =
      let w' = insert_rows (turn h).arrived w in
      let next =
        after_export-IsPassed cutoff b h hs (export_all out turn hs) sum w'
          (export_hour out (turn h).fault h w')
          (λ sum' v. export_all-IsPassed cutoff (h + 1) turn hs sum' v late)
          (insert_rows-IsSafe out cutoff (turn h).arrived w (late h) s) p
          (export_hour-IsOutcome out (turn h).fault h w') in
      record {
        safe = next.safe;
        table = λ g l. next.table g l ∙ of_hour-insert_rows cutoff g (turn h).arrived w (late h) l;
        recorded = next.recorded;
        at_most = next.at_most;
        complete = next.complete;
      }
