-- ===== src/Schedule/Bench/Normal.antt =====
-- A bench that is accepted is sorted, free of doubles, within the deployment, and holds exactly the
-- chassis that were asked for.
use battery_lab_sim.Prelude.{
  ℕ, ◌+◌, ◌≤◌, ◌<◌, ◌≡◌, refl, Bool, true, ◌||◌, none, some, List, [], ◌∷◌, arith, ◌==◌, any,
  Option-cases, inl, inr,
}
use battery_lab_sim.Schedule.Bench.{
  ChassisSpec, max_chassis, spec_ids, all_in_range, insert_sorted, sorted_set, normalize,
}

abbrev pub member : ℕ → List ℕ → Bool
member n = any (λ m. n == m)

-- Strictly ascending, above a bound.
abbrev pub Ascends : ℕ → List ℕ → Type 0
Ascends b [] = Unit
Ascends b (n ∷ ns) = (b ≤ n) × Ascends (n + 1) ns

insert_sorted-Ascends :
    (b n : ℕ) (ns : List ℕ) → b ≤ n → Ascends b ns → Ascends b (insert_sorted n ns)
unfolding insert_sorted
insert_sorted-Ascends b n [] h a = (h, tt)
insert_sorted-Ascends b n (m ∷ ms) h a = ground (arith, insert_sorted-Ascends (m + 1) n ms)

pub sorted_set-Ascends : (ns : List ℕ) → Ascends 0 (sorted_set ns)
unfolding sorted_set
sorted_set-Ascends [] = tt
sorted_set-Ascends (n ∷ ns) =
    insert_sorted-Ascends 0 n (sorted_set ns) (omega arith) (sorted_set-Ascends ns)

member-insert_sorted :
    (k n : ℕ) (ns : List ℕ) → member k (insert_sorted n ns) ≡ (k == n || member k ns)
unfolding insert_sorted
member-insert_sorted k n [] = refl
member-insert_sorted k n (m ∷ ms) = ground (arith, member-insert_sorted k n ms)

pub member-sorted_set : (k : ℕ) (ns : List ℕ) → member k (sorted_set ns) ≡ member k ns
unfolding sorted_set
member-sorted_set k [] = refl
member-sorted_set k (n ∷ ns) = rw (member-insert_sorted k n (sorted_set ns), member-sorted_set k ns)

all_in_range-member :
    (k : ℕ) (ns : List ℕ)
    → all_in_range ns ≡ true
    → member k ns ≡ true
    → (1 ≤ k) × (k ≤ max_chassis)
unfolding all_in_range
all_in_range-member k [] h m = cc
all_in_range-member k (n ∷ ns) h m = ground (arith, all_in_range-member k ns)

-- The normal form of an accepted chassis list is strictly ascending and has the same members as the
-- list that was asked for.
pub normalize_sound :
    (spec : ChassisSpec) (ids out : List ℕ) (k : ℕ)
    → spec_ids spec ≡ some ids
    → normalize spec ≡ some out
    → Ascends 0 out × (member k out ≡ member k ids)
unfolding normalize
normalize_sound spec ids out k e h = ground (arith, sorted_set-Ascends ids, member-sorted_set k ids)

-- An accepted chassis list is strictly ascending.
pub normalize-Ascends :
    (spec : ChassisSpec) (out : List ℕ) → normalize spec ≡ some out → Ascends 0 out
unfolding normalize
normalize-Ascends spec out h = elim (Option-cases (spec_ids spec)) [
  | inl rejected ↦ ground arith
  | inr (ids, e) ↦ ground (arith, sorted_set-Ascends ids)
]

-- Every member of an accepted chassis list is a chassis of the deployment.
pub normalize-in_range :
    (spec : ChassisSpec) (out : List ℕ) (k : ℕ)
    → normalize spec ≡ some out
    → member k out ≡ true
    → (1 ≤ k) × (k ≤ max_chassis)
unfolding normalize
normalize-in_range spec out k h m = elim (Option-cases (spec_ids spec)) [
  | inl rejected ↦ ground arith
  | inr (ids, e) ↦ ground (arith, member-sorted_set k ids, all_in_range-member k ids)
]

-- One id above the deployed range rejects the whole chassis list.
pub normalize-rejects :
    (spec : ChassisSpec) (ids : List ℕ) (k : ℕ)
    → spec_ids spec ≡ some ids
    → member k ids ≡ true
    → max_chassis < k
    → normalize spec ≡ none
unfolding normalize
normalize-rejects spec ids k e m h = ground (arith, all_in_range-member k ids)
