-- ===== src/Cycler/Block.antt =====
-- The register store of pymodbus, as an interface.
use battery_lab_sim.Prelude.{ℕ, ◌+◌, ◌≡◌, refl, List, [], ◌∷◌, ◌==◌, if◌then◌else◌}

-- pymodbus' `ModbusSparseDataBlock`: a register holds what was last stored in it.
pub record SparseBlock (B : Type 0) : Type 0 where
  pub get : B → ℕ → ℕ
  pub put : B → ℕ → ℕ → B
  pub get_put : (b : B) (a v c : ℕ) → get (put b a v) c ≡ (if a == c then v else get b c)

-- A block as a function, for evaluation.
pub put_fun : (ℕ → ℕ) → ℕ → ℕ → ℕ → ℕ
put_fun b a v c = if a == c then v else b c

pub get_put_fun : (b : ℕ → ℕ) (a v c : ℕ) → put_fun b a v c ≡ (if a == c then v else b c)
unfolding put_fun
get_put_fun b a v c = refl

instance abbrev pub function_block : SparseBlock (ℕ → ℕ)
function_block = record { get = λ b a. b a; put = put_fun; get_put = get_put_fun }

module _ {B : Type 0} ⦃sb : SparseBlock B⦄ where
  -- `super().setValues(address, values)`
  unfoldable pub put_values : B → ℕ → List ℕ → B
  put_values b a [] = b
  put_values b a (v ∷ vs) = put_values (sb.put b a v) (a + 1) vs
