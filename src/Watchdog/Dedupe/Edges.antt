-- ===== src/Watchdog/Dedupe/Edges.antt =====
-- The trigger fires on the rising edges of each key, and the keys do not disturb one another.
use battery_lab_sim.Prelude.{◌≡◌, refl, Bool, true, false, not, ◌&&◌, List, [], ◌∷◌, Eq, arith}
use battery_lab_sim.Prelude.Dict.{lookup, lookup-insert, lookup-erase}
use battery_lab_sim.Watchdog.Dedupe.{EdgeTrigger, is_true, update, reset}

-- The rising edges of a sequence of conditions, after the condition `before`.
unfoldable pub rising : Bool → List Bool → List Bool
rising before [] = []
rising before (c ∷ cs) = (c && not before) ∷ rising c cs

module _ {K : Type 0} ⦃e : Eq K⦄ where
  -- A sequence of updates of keys with conditions, and the answers for one key.
  unfoldable pub answers : K → List (K × Bool) → EdgeTrigger K → List Bool
  answers key [] state = []
  answers key ((k, c) ∷ us) state =
      let (fired, state') = update k c state in
      elim (e.beq k key) [ true ↦ fired ∷ answers key us state' | false ↦ answers key us state' ]

  -- The conditions that a sequence gives to one key.
  unfoldable pub conditions : K → List (K × Bool) → List Bool
  conditions key [] = []
  conditions key ((k, c) ∷ us) =
      let rest = conditions key us in elim (e.beq k key) [ true ↦ c ∷ rest | false ↦ rest ]

  pub lookup-update :
      (k j : K) (c : Bool) (state : EdgeTrigger K)
      → is_true (lookup j (update k c state).1)
        ≡ (elim (e.beq k j) [ true ↦ c | false ↦ is_true (lookup j state) ])
  unfolding update
  lookup-update k j c state = ground (arith, lookup-insert k j c state)

  -- Whatever other keys are updated in between, a key's answers are the rising edges of its own
  -- conditions.
  pub answers-eq-rising :
      (key : K) (us : List (K × Bool)) (state : EdgeTrigger K)
      → answers key us state ≡ rising (is_true (lookup key state)) (conditions key us)
  unfolding answers conditions rising update
  answers-eq-rising key [] state = refl
  answers-eq-rising key ((k, c) ∷ us) state = ground (
    arith,
    e.beq_iff k key,
    lookup-update k key c state,
    answers-eq-rising key us (update k c state).1,
  )

  -- After a reset the next true condition fires.
  pub update-reset :
      (key : K) (state : EdgeTrigger K) → (update key true (reset key state)).0 ≡ true
  unfolding update reset
  update-reset key state = ground (arith, e.beq_iff key key, lookup-erase key key state)
