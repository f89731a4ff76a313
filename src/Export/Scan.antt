-- ===== src/Export/Scan.antt =====
-- The rows of an hour, and the hours that a scan finds.
use battery_lab_sim.Prelude.{
  ℕ, ◌*◌, ◌<◌, ◌≤◌, ◌≡◌, refl, true, false, List, [], ◌∷◌, ◌++◌, arith, All, ℕ_eq,
}
use battery_lab_sim.Prelude.Dict.{contains}
use battery_lab_sim.Schedule.Bench.Normal.{member, Ascends, sorted_set-Ascends, member-sorted_set}
use battery_lab_sim.Export.{
  hour_us, TelemetryRow, LedgerRow, World, hour_floor, unrecorded, find_pending_hours, of_hour,
}

module _ {R : Type 0} where
  pub of_hour-append :
      (h : ℕ) (xs ys : List (TelemetryRow R)) → of_hour h (xs ++ ys) ≡ of_hour h xs ++ of_hour h ys
  unfolding of_hour
  of_hour-append h [] ys = refl
  of_hour-append h (x ∷ xs) ys = ground (arith, of_hour-append h xs ys)

  -- Rows at or after the cutoff.
  abbrev pub IsRecent : ℕ → List (TelemetryRow R) → Type 0
  IsRecent cutoff rows = All (λ (r : TelemetryRow R). cutoff * hour_us ≤ r.time) rows

  pub of_hour-IsRecent :
      (cutoff h : ℕ) (rows : List (TelemetryRow R))
      → IsRecent cutoff rows
      → h < cutoff
      → of_hour h rows ≡ []
  unfolding of_hour
  of_hour-IsRecent cutoff h [] p l = refl
  of_hour-IsRecent cutoff h (r ∷ rows) p l =
      ground (arith, p.0, of_hour-IsRecent cutoff h rows p.1 l)

  unrecorded-member :
      (cutoff k : ℕ) (ledger : List (ℕ × LedgerRow)) (rows : List (TelemetryRow R))
      → member k (unrecorded cutoff ledger rows) ≡ true
      → (k < cutoff) × (contains k ledger ≡ false)
  unfolding unrecorded hour_floor
  unrecorded-member cutoff k ledger [] m = cc
  unrecorded-member cutoff k ledger (r ∷ rows) m =
      ground (arith, unrecorded-member cutoff k ledger rows)

  unrecorded_complete :
      (cutoff h : ℕ) (ledger : List (ℕ × LedgerRow)) (rows : List (TelemetryRow R))
      → h < cutoff
      → contains h ledger ≡ false
      → member h (unrecorded cutoff ledger rows) ≡ false
      → of_hour h rows ≡ []
  unfolding unrecorded of_hour hour_floor
  unrecorded_complete cutoff h ledger [] l c m = refl
  unrecorded_complete cutoff h ledger (r ∷ rows) l c m =
      ground (arith, unrecorded_complete cutoff h ledger rows)

  -- The pending hours are strictly ascending.
  pub find_pending_hours-Ascends :
      (cutoff : ℕ) (w : World R) → Ascends 0 (find_pending_hours cutoff w)
  unfolding find_pending_hours
  find_pending_hours-Ascends cutoff w = sorted_set-Ascends (unrecorded cutoff w.ledger w.telemetry)

  -- A pending hour is before the cutoff and not in the ledger.
  pub find_pending_hours-member :
      (cutoff k : ℕ) (w : World R)
      → member k (find_pending_hours cutoff w) ≡ true
      → (k < cutoff) × (contains k w.ledger ≡ false)
  unfolding find_pending_hours
  find_pending_hours-member cutoff k w =
      rw (member-sorted_set k (unrecorded cutoff w.ledger w.telemetry))
        (unrecorded-member cutoff k w.ledger w.telemetry)

  -- An hour before the cutoff that is neither in the ledger nor pending has no rows.
  pub find_pending_hours_complete :
      (cutoff h : ℕ) (w : World R)
      → h < cutoff
      → contains h w.ledger ≡ false
      → member h (find_pending_hours cutoff w) ≡ false
      → of_hour h w.telemetry ≡ []
  unfolding find_pending_hours
  find_pending_hours_complete cutoff h w l c =
      rw (member-sorted_set h (unrecorded cutoff w.ledger w.telemetry))
        (unrecorded_complete cutoff h w.ledger w.telemetry l c)
