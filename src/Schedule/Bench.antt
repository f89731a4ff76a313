-- ===== src/Schedule/Bench.antt =====
-- libs/batterylab/src/batterylab/schedule.py, `BenchConfig._normalize`: the chassis that take part. The
-- string forms are taken as split at the commas and stripped: a segment is its text as numbers.
pub mod Normal
use battery_lab_sim.Prelude.{
  ℕ, zero, suc, ◌+◌, ◌-◌, Bool, true, false, ◌&&◌, ◌||◌, Option, none, some, List, [], ◌∷◌, ◌++◌,
  ◌==◌, ltb, leb, if◌then◌else◌,
}

abbrev pub max_chassis : ℕ
max_chassis = 16

-- `range(lo, lo + n)`
unfoldable pub range_from : ℕ → ℕ → List ℕ
range_from lo zero = []
range_from lo (suc n) = lo ∷ range_from (lo + 1) n

-- A segment between commas: a number, a range of numbers, or what raises `ValueError`.
pub data Segment : Type 0 where
  single : ℕ → Segment
  range : (lo hi : ℕ) → Segment
  malformed : Segment

unfoldable pub segment_ids : Segment → Option (List ℕ)
unfolding range_from
segment_ids (single n) = some (n ∷ [])
segment_ids (range lo hi) = if ltb hi lo then none else some (range_from lo (hi + 1 - lo))
segment_ids malformed = none

unfoldable pub segments_ids : List Segment → Option (List ℕ)
unfolding segment_ids
segments_ids [] = some []
segments_ids (s ∷ ss) = elim (segment_ids s) [
  | none ↦ none
  | some ids ↦ elim (segments_ids ss) [ none ↦ none | some rest ↦ some (ids ++ rest) ]
]

-- The forms that the field accepts: an int, a list, or a string. List elements that are no ints and
-- values of other types raise, like `malformed`. A negative number, which is rejected too, counts
-- among them.
pub data ChassisSpec : Type 0 where
  one : ℕ → ChassisSpec
  many : List (Option ℕ) → ChassisSpec
  text : List Segment → ChassisSpec
  other : ChassisSpec

unfoldable pub all_ints : List (Option ℕ) → Option (List ℕ)
all_ints [] = some []
all_ints (none ∷ xs) = none
all_ints (some n ∷ xs) = elim (all_ints xs) [ none ↦ none | some rest ↦ some (n ∷ rest) ]

unfoldable pub spec_ids : ChassisSpec → Option (List ℕ)
unfolding segments_ids all_ints
spec_ids (one n) = some (n ∷ [])
spec_ids (many items) = all_ints items
spec_ids (text segments) = segments_ids segments
spec_ids other = none

abbrev pub in_range : ℕ → Bool
in_range n = leb 1 n && leb n max_chassis

unfoldable pub all_in_range : List ℕ → Bool
all_in_range [] = true
all_in_range (n ∷ ns) = in_range n && all_in_range ns

-- `sorted(set(ids))`, by insertion into a sorted list without doubles.
unfoldable pub insert_sorted : ℕ → List ℕ → List ℕ
insert_sorted n [] = n ∷ []
insert_sorted n (m ∷ ms) =
    let rest = insert_sorted n ms in
    if ltb n m then n ∷ m ∷ ms else if n == m then m ∷ ms else m ∷ rest

unfoldable pub sorted_set : List ℕ → List ℕ
unfolding insert_sorted
sorted_set [] = []
sorted_set (n ∷ ns) = insert_sorted n (sorted_set ns)

abbrev is_empty : List ℕ → Bool
is_empty [] = true
is_empty (n ∷ ns) = false

unfoldable pub normalize : ChassisSpec → Option (List ℕ)
unfolding spec_ids all_in_range sorted_set
normalize spec = elim (spec_ids spec) [
  | none ↦ none
  | some ids ↦
      if is_empty ids then none else if all_in_range ids then some (sorted_set ids) else none
]
