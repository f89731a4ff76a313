-- ===== src/Prelude/Float.antt =====
-- Python's floats, as an interface: the operations that the program calls and the laws of IEEE 754
-- that the proofs use. They hold of NaN and the infinities too. `fixed_point` instantiates them.
use battery_lab_sim.Prelude.{
  ℕ, ◌+◌, ◌-◌, ◌*◌, ◌/◌, ◌%◌, ◌^◌, ◌≤◌, ◌<◌, ◌≡◌, Bool, true, false, none, some, List, arith,
  if◌then◌else◌, ltb,
}
use battery_lab_sim.Prelude.Int.{
  ℤ, pos, negsuc, pos_part, neg_part, ◌+ℤ◌, ◌-ℤ◌, ◌*ℤ◌, ltb_ℤ, leb_ℤ, quot,
}
use mathlib.Core.List.{head?}

pub record Float (R : Type 0) : Type 0 where
  -- `x < y` and `x <= y`
  pub lt : R → R → Bool
  pub le : R → R → Bool
  pub add : R → R → R
  pub sub : R → R → R
  pub mul : R → R → R
  pub div : R → R → R
  pub neg : R → R
  pub abs : R → R
  pub sqrt : R → R
  pub exp : R → R
  -- `numpy.interp(x, xs, ys)`
  pub interp : R → List R → List R → R
  -- `float(n)`, and the literal m / 10 ^ k
  pub of_int : ℤ → R
  pub lit : ℕ → ℕ → R
  -- `int(x)` of a finite x
  pub to_int : R → ℤ
  -- `struct.pack(">f", x)` and `struct.unpack(">f", raw)`, on the four bytes as one number
  pub pack_f32 : R → ℕ
  pub unpack_f32 : ℕ → R
  pub lt_asym : (x y : R) → lt x y ≡ true → lt y x ≡ false
  -- A number is not more than `d > 0` away from itself: `abs(x - x) > d` is false.
  pub lt_self : (x : R) (k : ℕ) → lt (lit 1 k) (abs (sub x x)) ≡ false
  pub lit_mono : (m n k : ℕ) → m ≤ n → lt (lit n k) (lit m k) ≡ false
  pub pack_f32_lt : (x : R) → pack_f32 x < 4294967296

module _ {R : Type 0} ⦃fl : Float R⦄ where
  -- Python's `min(a, b)` and `max(a, b)`: the first argument unless the second is beyond it.
  unfoldable pub fmin : R → R → R
  fmin a b = if fl.lt b a then b else a

  unfoldable pub fmax : R → R → R
  fmax a b = if fl.lt a b then b else a

  pub lt_irrefl : (x : R) → fl.lt x x ≡ false
  lt_irrefl x = ground (arith, fl.lt_asym x x)

  -- `max(lo, min(hi, x))` is not outside of [lo, hi], whatever x is.
  pub clamp_bounds :
      (lo hi x : R)
      → fl.lt hi lo ≡ false
      → (fl.lt (fmax lo (fmin hi x)) lo ≡ false) × (fl.lt hi (fmax lo (fmin hi x)) ≡ false)
  unfolding fmax fmin
  clamp_bounds lo hi x h =
      ground (arith, fl.lt_asym x hi, fl.lt_asym lo x, fl.lt_asym lo hi, lt_irrefl lo, lt_irrefl hi)

-- Fixed point with nine decimals, for evaluation. `sqrt` and `exp` are the identity there
-- and `interp` takes the first point.
abbrev pub one_unit : ℕ
one_unit = 1000000000

pub fixed_lt_asym : (x y : ℤ) → ltb_ℤ x y ≡ true → ltb_ℤ y x ≡ false
fixed_lt_asym x y h = ground arith

abbrev pub fixed_abs : ℤ → ℤ
fixed_abs a = pos (pos_part a + neg_part a)

abbrev pub fixed_lit : ℕ → ℕ → ℤ
fixed_lit m k = pos (m * (one_unit / 10 ^ k))

pub fixed_lt_self : (x : ℤ) (k : ℕ) → ltb_ℤ (fixed_lit 1 k) (fixed_abs (x -ℤ x)) ≡ false
unfolding ◌-ℤ◌
fixed_lt_self x k = ground arith

scale_mono : (m n c : ℕ) → m ≤ n → m * c ≤ n * c
scale_mono m n c h = grind arith

pub fixed_lit_mono : (m n k : ℕ) → m ≤ n → ltb_ℤ (fixed_lit n k) (fixed_lit m k) ≡ false
fixed_lit_mono m n k h = ground (arith, scale_mono m n (one_unit / 10 ^ k) h)

abbrev pub fixed_div : ℤ → ℤ → ℤ
fixed_div a (pos d) = quot (a *ℤ pos one_unit) d
fixed_div a (negsuc d) = pos 0 -ℤ quot (a *ℤ pos one_unit) (d + 1)

-- Millionths, in two's complement.
abbrev pub fixed_pack : ℤ → ℕ
fixed_pack a = (pos_part a / 1000 + 4294967296 - neg_part a / 1000 % 4294967296) % 4294967296

abbrev pub fixed_unpack : ℕ → ℤ
fixed_unpack raw =
    if ltb raw 2147483648 then pos (raw * 1000) else pos 0 -ℤ pos ((4294967296 - raw) * 1000)

pub fixed_pack_lt : (x : ℤ) → fixed_pack x < 4294967296
fixed_pack_lt x = omega arith

instance abbrev pub fixed_point : Float ℤ
fixed_point = record {
  lt = ltb_ℤ;
  le = leb_ℤ;
  add = ◌+ℤ◌;
  sub = ◌-ℤ◌;
  mul = λ a b. quot (a *ℤ b) one_unit;
  div = fixed_div;
  neg = λ a. pos 0 -ℤ a;
  abs = fixed_abs;
  sqrt = λ a. a;
  exp = λ a. a;
  interp = λ x xs ys. elim (head? ys) [ none ↦ x | some y ↦ y ];
  of_int = λ n. n *ℤ pos one_unit;
  lit = fixed_lit;
  to_int = λ a. quot a one_unit;
  pack_f32 = fixed_pack;
  unpack_f32 = fixed_unpack;
  lt_asym = fixed_lt_asym;
  lt_self = fixed_lt_self;
  lit_mono = fixed_lit_mono;
  pack_f32_lt = fixed_pack_lt;
}
