-- ===== src/Cycler/Registers/Writes.antt =====
-- What a register write does: to the channel that owns the register, and to nothing else.
use battery_lab_sim.Prelude.{
  ℕ, suc, zero, ◌-◌, ◌<◌, ◌≡◌, ◌≢◌, refl, ap, some, List, [], ◌∷◌, arith, get_elem?, set,
}
use battery_lab_sim.Prelude.Float.{Float}
use battery_lab_sim.Modbus.{ChannelReg, channel_offset, channel_base, channel_reg, chassis_base}
use battery_lab_sim.Modbus.RoundTrip.{channel_reg-decodes, channel_reg-lt_chassis}
use battery_lab_sim.Cycler.Channel.{Channel}
use battery_lab_sim.Cycler.Block.{SparseBlock}
use battery_lab_sim.Cycler.Registers.{
  Chassis, channel_write, dispatch, dispatch_channel, set_values,
}

module _ {ℓ} {A : Type ℓ} where
  pub get_elem?-set_self :
      (xs : List A) (i : ℕ) (v : A) {a : A}
      → get_elem? xs i ≡ some a
      → get_elem? (set xs i v) i ≡ some v
  get_elem?-set_self [] i v h = cc
  get_elem?-set_self (x ∷ xs) zero v h = refl
  get_elem?-set_self (x ∷ xs) (suc i) v h = get_elem?-set_self xs i v h

  pub get_elem?-set_ne :
      (xs : List A) (i j : ℕ) (v : A) → i ≢ j → get_elem? (set xs i v) j ≡ get_elem? xs j
  get_elem?-set_ne [] i j v h = refl
  get_elem?-set_ne (x ∷ xs) zero zero v h = absurd (h refl)
  get_elem?-set_ne (x ∷ xs) zero (suc j) v h = refl
  get_elem?-set_ne (x ∷ xs) (suc i) zero v h = refl
  get_elem?-set_ne (x ∷ xs) (suc i) (suc j) v h = get_elem?-set_ne xs i j v (λ e. h (ap suc e))

module _ {R B : Type 0} ⦃fl : Float R⦄ ⦃sb : SparseBlock B⦄ where
  -- A channel register is dispatched to its channel, with its offset.
  pub dispatch-channel_reg :
      (now : R) (i : ℕ) (r : ChannelReg) (s : Chassis R B) {ch : Channel R}
      → i < 200
      → get_elem? s.channels i ≡ some ch
      → dispatch now (channel_reg i r) s ≡ record s {
        channels = set s.channels i (channel_write now s.block i (channel_offset r) ch);
      }
  unfolding dispatch dispatch_channel
  dispatch-channel_reg now i r s {ch} small found =
      let below : channel_reg i r < chassis_base = channel_reg-lt_chassis i r small in
      let home = (channel_reg-decodes i r).0 in
      let offset : channel_reg i r - channel_base i ≡ channel_offset r =
        omega (arith, (channel_reg-decodes i r).1) in
      ground (arith, below, home, offset, found)

  -- A write of one register of one of the channels below 200 stores the value, lets that channel react,
  -- and leaves the other channels and the chassis kick as they were.
  pub set_values-channel_reg :
      (now : R) (i : ℕ) (r : ChannelReg) (v : ℕ) (s : Chassis R B) {ch : Channel R}
      → i < 200
      → get_elem? s.channels i ≡ some ch
      → set_values now (channel_reg i r) (v ∷ []) s ≡ record s {
        block = sb.put s.block (channel_reg i r) v;
        channels =
            set s.channels i
              (channel_write now (sb.put s.block (channel_reg i r) v) i (channel_offset r) ch);
      }
  unfolding set_values
  set_values-channel_reg now i r v s small found =
      dispatch-channel_reg now i r (record s { block = sb.put s.block (channel_reg i r) v }) small
        found
