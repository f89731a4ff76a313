-- ===== src/Cycler/Boot.antt =====
-- services/cycler/src/cycler/main.py: the channels that a cycler starts with.
use battery_lab_sim.Prelude.{
  ℕ, zero, suc, ◌+◌, ◌<◌, ◌≡◌, refl, String, Option, none, some, List, [], ◌∷◌, arith, get_elem?,
  inl,
}
use battery_lab_sim.Prelude.Float.{Float}
use battery_lab_sim.Models.{is_error}
use battery_lab_sim.Chemistry.{ChemistryParams, get_chemistry}
use battery_lab_sim.Cell.{new_cell}
use battery_lab_sim.Cycler.Channel.{Channel, new_channel}
use battery_lab_sim.Cycler.Channel.Laws.{IsSafe}

module _ {R : Type 0} ⦃fl : Float R⦄ where
  -- The channels `idx`, `idx + 1` and so on, made at the time `now`.
  unfoldable pub channels_from : R → ChemistryParams R → ℕ → ℕ → List (Channel R)
  unfolding new_cell new_channel
  channels_from now chem idx zero = []
  channels_from now chem idx (suc n) =
      new_channel now idx (new_cell chem) chem.v_max_mv ∷ channels_from now chem (idx + 1) n

  -- `_make_channels`, with the `ValueError` of an unknown chemistry as `none`.
  unfoldable pub make_channels : R → ℕ → String → Option (List (Channel R))
  unfolding get_chemistry channels_from
  make_channels now n chemistry = elim (get_chemistry chemistry) [
    | none ↦ none
    | some chem ↦ some (channels_from now chem 0 n)
  ]

  -- The channel at place i has the index i after the first, was kicked when it was made, and is safe.
  channels_from-at :
      (now : R) (chem : ChemistryParams R) (idx n i : ℕ)
      → i < n
      → (ch : Channel R) × (get_elem? (channels_from now chem idx n) i ≡ some ch)
        × (ch.idx ≡ idx + i)
        × (ch.last_kick_wall_s ≡ now)
        × (ch.safety_v_max_mv ≡ chem.v_max_mv)
        × IsSafe ch
  unfolding channels_from new_channel is_error
  channels_from-at now chem idx zero i h = absurd (omega arith)
  channels_from-at now chem idx (suc n) zero h =
      (new_channel now idx (new_cell chem) chem.v_max_mv, refl, omega arith, refl, refl, inl refl)
  channels_from-at now chem idx (suc n) (suc i) h =
      let (ch, e, k, fresh, v, safe) = channels_from-at now chem (idx + 1) n i (omega arith) in
      (ch, e, omega (arith, k), fresh, v, safe)

  -- A cycler that starts has, for each index below its number of channels, a safe channel with that index,
  -- the voltage limit of its chemistry and a fresh kick at the place of the index.
  pub make_channels-at :
      (now : R) (n i : ℕ) (chemistry : String) (chem : ChemistryParams R)
      → get_chemistry chemistry ≡ some chem
      → i < n
      → (chs : List (Channel R)) × (ch : Channel R) × (make_channels now n chemistry ≡ some chs)
        × (get_elem? chs i ≡ some ch)
        × (ch.idx ≡ i)
        × (ch.last_kick_wall_s ≡ now)
        × (ch.safety_v_max_mv ≡ chem.v_max_mv)
        × IsSafe ch
  unfolding make_channels
  make_channels-at now n i chemistry chem e h =
      let (ch, at, k, fresh, v, safe) = channels_from-at now chem 0 n i h in
      (
        channels_from now chem 0 n,
        ch,
        rw (e, make_channels) refl,
        at,
        omega (arith, k),
        fresh,
        v,
        safe,
      )
