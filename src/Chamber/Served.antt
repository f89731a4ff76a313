-- ===== src/Chamber/Served.antt =====
-- What a Modbus client of a chamber sees: the setpoint that it writes, and the watchdog that it kicks.
use battery_lab_sim.Prelude.{
  ℕ, ◌+◌, ◌%◌, ◌<◌, ◌≡◌, refl, ap, ◌∙◌, Bool, true, ◌&&◌, List, [], ◌∷◌, ◌==◌, arith, length, leb,
  ltb, if◌then◌else◌,
}
use battery_lab_sim.Prelude.Int.{pos}
use battery_lab_sim.Prelude.Float.{Float}
use battery_lab_sim.Modbus.{
  ChamberReg, setpoint_dc, chamber_watchdog_kick, chamber_watchdog_status, chamber_address,
}
use battery_lab_sim.Cycler.Block.{SparseBlock, put_values}
use battery_lab_sim.Chamber.{
  ThermalModel, Chamber, u16_deci, dispatch, dispatch_all, set_values, mirror,
}

-- A write of values from an address on covers a register.
abbrev pub covers : ℕ → List ℕ → ChamberReg → Bool
covers address values reg =
    leb address (chamber_address reg) && ltb (chamber_address reg) (address + length values)

-- The model after a write: only the first value of one from address 0 on is a setpoint.
abbrev pub model_after : {R : Type 0} ⦃fl : Float R⦄ → ℕ → List ℕ → ThermalModel R → ThermalModel R
model_after address [] m = m
model_after ⦃fl⦄ address (raw ∷ values) m =
    if address == 0
    then record m { setpoint_c = fl.div (fl.of_int (pos (raw % 65536))) (fl.lit 10 0) }
    else m

module _ {R B : Type 0} ⦃fl : Float R⦄ ⦃sb : SparseBlock B⦄ where
  dispatch_all-model_after_0 :
      (now : R) (address : ℕ) (values : List ℕ) (c : Chamber R B)
      → 0 < address
      → (dispatch_all now address values c).model ≡ c.model
  unfolding dispatch_all dispatch chamber_address
  dispatch_all-model_after_0 now address [] c h = refl
  dispatch_all-model_after_0 now address (raw ∷ values) c h =
      dispatch_all-model_after_0 now (address + 1) values (dispatch now address raw c) (omega arith)
      ∙ ground arith

  dispatch_all-model :
      (now : R) (address : ℕ) (values : List ℕ) (c : Chamber R B)
      → (dispatch_all now address values c).model ≡ model_after address values c.model
  unfolding dispatch_all dispatch chamber_address
  dispatch_all-model now address [] c = refl
  dispatch_all-model now address (raw ∷ values) c =
      dispatch_all-model_after_0 now (address + 1) values (dispatch now address raw c) (omega arith)
      ∙ ground arith

  dispatch_all-last_kick :
      (now : R) (address : ℕ) (values : List ℕ) (c : Chamber R B)
      → (dispatch_all now address values c).last_kick_sim_s
        ≡ (if covers address values chamber_watchdog_kick then now else c.last_kick_sim_s)
  unfolding dispatch_all dispatch chamber_address
  dispatch_all-last_kick now address [] c = ground arith
  dispatch_all-last_kick now address (raw ∷ values) c =
      dispatch_all-last_kick now (address + 1) values (dispatch now address raw c) ∙ ground arith

  -- A write, of any values from any address on, sets the setpoint to a tenth of the low word of the
  -- value at register 0, if that is written, and changes nothing else of the model; it kicks the watchdog
  -- if and only if it covers the kick register.
  pub set_values_lem :
      (now : R) (address : ℕ) (values : List ℕ) (c : Chamber R B)
      → let c' = set_values now address values c in
        (c'.model ≡ model_after address values c.model)
        × (c'.last_kick_sim_s
            ≡ (if covers address values chamber_watchdog_kick then now else c.last_kick_sim_s))
  unfolding set_values
  set_values_lem now address values c =
      let c' = record c { block = put_values c.block address values } in
      (dispatch_all-model now address values c', dispatch_all-last_kick now address values c')

  -- After a write that covers the kick register, the mirror reports the watchdog as tripped if and only
  -- if more than 30 s have passed since the write; the mirror leaves the setpoint's register alone.
  pub mirror-set_values :
      (now later : R) (address : ℕ) (values : List ℕ) (c : Chamber R B)
      → covers address values chamber_watchdog_kick ≡ true
      → let c' = set_values now address values c in
        let b = (mirror later c').block in
        (sb.get b (chamber_address chamber_watchdog_status)
          ≡ (if fl.lt (fl.lit 30 0) (fl.sub later now) then 1 else 0))
        × (sb.get b (chamber_address setpoint_dc) ≡ sb.get c'.block (chamber_address setpoint_dc))
  unfolding mirror chamber_address
  mirror-set_values now later address values c h =
      let c' = set_values now address values c in
      let kicked : c'.last_kick_sim_s ≡ now =
        rw ((set_values_lem now address values c).1) (rw h refl) in
      let b = sb.put c'.block 1 (u16_deci c'.model.measured_c) in
      let status = if fl.lt (fl.lit 30 0) (fl.sub later c'.last_kick_sim_s) then 1 else 0 in
      (
        sb.get_put b 11 status 11
            ∙ ap (λ k. if fl.lt (fl.lit 30 0) (fl.sub later k) then 1 else 0) kicked,
        sb.get_put b 11 status 0 ∙ sb.get_put c'.block 1 (u16_deci c'.model.measured_c) 0,
      )
