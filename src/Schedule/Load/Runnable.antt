-- ===== src/Schedule/Load/Runnable.antt =====
-- What a loaded schedule is.
use battery_lab_sim.Prelude.{
  ℕ, ◌≤◌, ◌≡◌, ◌≢◌, refl, subst, ◌∙◌, String, String_eq, Bool, true, false, ◌&&◌, Option, none,
  some, List, [], ◌∷◌, map, any, All, arith, get_elem?,
}
use battery_lab_sim.Prelude.Int.{ℤ, pos, negsuc, pos_part}
use battery_lab_sim.Prelude.Float.{Float}
use battery_lab_sim.Schedule.{Step, step_name, Schedule, all_distinct, valid_steps}
use battery_lab_sim.Schedule.Bench.{max_chassis, normalize}
use battery_lab_sim.Schedule.Bench.Normal.{Ascends, member, normalize-Ascends, normalize-in_range}
use battery_lab_sim.Schedule.Load.{
  max_channels_per_chassis, RawSchedule, valid_repeat, valid_channels, loaded, FileText, body,
  os_error, other_error, model_validate, schedule_of, if_valid, accept, git_sha_of, loaded_or_error,
  validate_or_error, parse_or_error, load_schedule,
}
use text.Mathlib.Text.{◌==◌ as str_eq}
use text.Mathlib.TextEquality.{eq_iff}

-- No two names are the same.
abbrev pub Distinct : List String → Type 0
Distinct [] = Unit
Distinct (n ∷ ns) = All (λ m. n ≢ m) ns × Distinct ns

any-All : (n : String) (ns : List String) → any (str_eq n) ns ≡ false → All (λ m. n ≢ m) ns
any-All n [] h = tt
any-All n (m ∷ ns) h = (ground (arith, eq_iff n m), any-All n ns (ground arith))

-- The shape that the executor and the bench rely on.
pub record IsRunnable {R : Type 0} (s : Schedule R) : Type 0 where
  pub chassis_ascend : Ascends 0 s.chassis
  pub chassis_deployed : (k : ℕ) → member k s.chassis ≡ true → (1 ≤ k) × (k ≤ max_chassis)
  pub channels : (1 ≤ s.channels_per_chassis) × (s.channels_per_chassis ≤ max_channels_per_chassis)
  pub first_step : (step : Step R) × (get_elem? s.steps 0 ≡ some step)
  pub names : Distinct (map step_name s.steps)
  pub repeats : 1 ≤ s.repeat

all_distinct-Distinct : (ns : List String) → all_distinct ns ≡ true → Distinct ns
unfolding all_distinct
all_distinct-Distinct [] h = tt
all_distinct-Distinct (n ∷ ns) h =
    (any-All n ns (ground arith), all_distinct-Distinct ns (ground arith))

module _ {R : Type 0} where
  valid_steps-first :
      (steps : List (Step R))
      → valid_steps steps ≡ true
      → ((step : Step R) × (get_elem? steps 0 ≡ some step)) × Distinct (map step_name steps)
  unfolding valid_steps
  valid_steps-first [] h = absurd (cc)
  valid_steps-first (step ∷ steps) h =
      ((step, refl), all_distinct-Distinct (map step_name (step ∷ steps)) h)

valid_channels-bounds :
    (count : ℤ)
    → valid_channels count ≡ true
    → (1 ≤ pos_part count) × (pos_part count ≤ max_channels_per_chassis)
unfolding valid_channels
valid_channels-bounds (pos n) h = ground arith
valid_channels-bounds (negsuc n) h = ground arith

valid_repeat-bound : (repeat : ℤ) → valid_repeat repeat ≡ true → 1 ≤ pos_part repeat
unfolding valid_repeat
valid_repeat-bound (pos n) h = ground arith
valid_repeat-bound (negsuc n) h = ground arith

and3 : (a b c : Bool) → (a && b && c) ≡ true → (a ≡ true) × (b ≡ true) × (c ≡ true)
and3 a b c h = ground arith

git_sha_of-named : (git : Option (ℕ × String)) → git_sha_of git ≢ ""
unfolding git_sha_of
git_sha_of-named none h = ground (arith, eq_iff "uncommitted" "")
git_sha_of-named (some (code, sha)) h = ground (arith, eq_iff sha "", eq_iff "uncommitted" "")

module _ {R : Type 0} ⦃fl : Float R⦄ where
  schedule_of-IsRunnable :
      (raw : RawSchedule R) (chassis : List ℕ)
      → normalize raw.chassis ≡ some chassis
      → valid_channels raw.channels_per_chassis ≡ true
      → valid_steps raw.steps ≡ true
      → valid_repeat raw.repeat ≡ true
      → IsRunnable (schedule_of raw chassis)
  schedule_of-IsRunnable raw chassis e hc hs hr = record {
    chassis_ascend = normalize-Ascends raw.chassis chassis e;
    chassis_deployed = λ k m. normalize-in_range raw.chassis chassis k e m;
    channels = valid_channels-bounds raw.channels_per_chassis hc;
    first_step = (valid_steps-first raw.steps hs).0;
    names = (valid_steps-first raw.steps hs).1;
    repeats = valid_repeat-bound raw.repeat hr;
  }

  if_valid-eq :
      (valid : Bool) (schedule s : Schedule R)
      → if_valid valid schedule ≡ some s
      → (valid ≡ true) × (schedule ≡ s)
  if_valid-eq true schedule s h = (refl, cc)
  if_valid-eq false schedule s h = absurd (cc)

  accept-IsRunnable :
      (raw : RawSchedule R) (o : Option (List ℕ)) (s : Schedule R)
      → normalize raw.chassis ≡ o
      → accept raw o ≡ some s
      → IsRunnable s
  accept-IsRunnable raw none s e h = absurd (cc)
  accept-IsRunnable raw (some chassis) s e h =
      let valid = if_valid-eq _ (schedule_of raw chassis) s h in
      let parts =
        and3 (valid_channels raw.channels_per_chassis) (valid_steps raw.steps)
          (valid_repeat raw.repeat) valid.0 in
      subst IsRunnable valid.1 (schedule_of-IsRunnable raw chassis e parts.0 parts.1 parts.2)

  model_validate-IsRunnable :
      (raw : RawSchedule R) (s : Schedule R) → model_validate raw ≡ some s → IsRunnable s
  unfolding model_validate
  model_validate-IsRunnable raw s h = accept-IsRunnable raw (normalize raw.chassis) s refl h

  loaded-IsRunnable :
      (o : Option (RawSchedule R)) (sha : String) (s : Schedule R) (sha' : String)
      → validate_or_error o sha ≡ loaded s sha'
      → IsRunnable s × (sha ≡ sha')
  loaded-IsRunnable none sha s sha' h = absurd (cc)
  loaded-IsRunnable (some raw) sha s sha' h = validated raw (model_validate raw) refl h
    where
      validated :
          (raw : RawSchedule R) (o : Option (Schedule R))
          → model_validate raw ≡ o
          → loaded_or_error o sha ≡ loaded s sha'
          → IsRunnable s × (sha ≡ sha')
      validated raw none e k = absurd (cc)
      validated raw (some t) e k = (subst IsRunnable (cc) (model_validate-IsRunnable raw t e), cc)

  module _ {Y : Type 0} (yaml : String → Option Y) (typed : Y → Option (RawSchedule R)) where
    -- Whatever is in the file and whatever YAML and git answer, a schedule that is loaded has a first
    -- step, no two steps of one name, at least one cycle, from 1 to 32 channels, and chassis of the
    -- deployment in strictly ascending order; and its hash is not empty.
    pub load_schedule-IsRunnable :
        (file : FileText) (git : Option (ℕ × String)) (s : Schedule R) (sha : String)
        → load_schedule yaml typed file git ≡ loaded s sha
        → IsRunnable s × (sha ≢ "")
    unfolding load_schedule
    load_schedule-IsRunnable os_error git s sha h = absurd (cc)
    load_schedule-IsRunnable other_error git s sha h = absurd (cc)
    load_schedule-IsRunnable (body text) git s sha h = parsed (yaml text) h
      where
        parsed :
            (o : Option Y)
            → parse_or_error yaml typed o (git_sha_of git) ≡ loaded s sha
            → IsRunnable s × (sha ≢ "")
        parsed none k = absurd (cc)
        parsed (some y) k =
            let r = loaded-IsRunnable (typed y) (git_sha_of git) s sha k in
            (r.0, λ e. git_sha_of-named git (r.1 ∙ e))
