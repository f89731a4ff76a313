-- ===== src/Orchestrator/Client/Between.antt =====
-- Writes of the client, delivered to the chassis one after the other, and what is known between two of
-- them.
use battery_lab_sim.Prelude.{
  ℕ, ◌+◌, ◌<◌, ◌≡◌, ◌≢◌, refl, ◌∙◌, ap, false, some, List, [], ◌∷◌, arith, get_elem?,
}
use battery_lab_sim.Prelude.Float.{Float}
use battery_lab_sim.Models.{is_error}
use battery_lab_sim.Modbus.{ChannelReg, channel_offset, channel_base, channel_reg}
use battery_lab_sim.Cycler.Channel.{Channel}
use battery_lab_sim.Cycler.Channel.Laws.{apply_command-latch}
use battery_lab_sim.Cycler.Block.{SparseBlock, put_values}
use battery_lab_sim.Cycler.Registers.{Chassis, channel_write, apply_registers, dispatch, set_values}
use battery_lab_sim.Cycler.Registers.Writes.{
  get_elem?-set_self, get_elem?-set_ne, set_values-channel_reg, dispatch-channel_reg,
}
use battery_lab_sim.Orchestrator.Client.{Write}

lo_after_hi :
    (i : ℕ) → channel_reg i ChannelReg.setpoint_hi + 1 ≡ channel_reg i ChannelReg.setpoint_lo
unfolding channel_reg channel_base channel_offset
lo_after_hi i = omega arith

module _ {R B : Type 0} ⦃fl : Float R⦄ ⦃sb : SparseBlock B⦄ where
  -- The chassis handles the writes one after the other, each at its own time.
  unfoldable pub deliver : (ℕ → R) → List Write → Chassis R B → Chassis R B
  deliver clock [] s = s
  deliver clock (w ∷ ws) s =
      deliver (λ n. clock (n + 1)) ws (set_values (clock 0) w.address w.values s)

  -- A channel that has no error, as the block commands it.
  pub apply_registers-latch :
      (now : R) (b : B) (i : ℕ) (ch : Channel R)
      → (apply_registers now b i ch).latched_error ≡ ch.latched_error
  unfolding apply_registers
  apply_registers-latch now b i ch = apply_command-latch now _ _ _ _ ch

  -- What is known between two writes of a command to channel i: an unlatched channel, every other
  -- channel as it was in `s`, and the block.
  pub record Between (i : ℕ) (s t : Chassis R B) (b : B) : Type 0 where
    pub channel : Channel R
    pub found : get_elem? t.channels i ≡ some channel
    pub unlatched : is_error channel.latched_error ≡ false
    pub others : (j : ℕ) → i ≢ j → get_elem? t.channels j ≡ get_elem? s.channels j
    pub kick_kept : t.kick_state ≡ s.kick_state
    pub stored : t.block ≡ b

  dispatch-Between :
      (now : R) (i : ℕ) (r : ChannelReg) (s t : Chassis R B) (b : B)
      → i < 200
      → ((c : Channel R) → channel_write now b i (channel_offset r) c ≡ apply_registers now b i c)
      → Between i s t b
      → Between i s (dispatch now (channel_reg i r) t) b
  dispatch-Between now i r s t b small same h =
      rw (dispatch-channel_reg now i r t small h.found) (record {
        channel = channel_write now t.block i (channel_offset r) h.channel;
        found = get_elem?-set_self t.channels i _ h.found;
        unlatched = rw (h.stored, same, apply_registers-latch) h.unlatched;
        others = λ j ne. get_elem?-set_ne t.channels i j _ ne ∙ h.others j ne;
        kick_kept = h.kick_kept;
        stored = h.stored;
      })

  store-Between :
      {i : ℕ} {s t : Chassis R B} {b : B} (c b' : B)
      → c ≡ b'
      → Between i s t b
      → Between i s (record t { block = c }) b'
  store-Between c b' e h = record {
    channel = h.channel;
    found = h.found;
    unlatched = h.unlatched;
    others = h.others;
    kick_kept = h.kick_kept;
    stored = e;
  }

  pub set_value-Between :
      (now : R) (i : ℕ) (r : ChannelReg) (v : ℕ) (s t : Chassis R B) (b : B)
      → i < 200
      → ((b' : B) (c : Channel R)
          → channel_write now b' i (channel_offset r) c ≡ apply_registers now b' i c)
      → Between i s t b
      → Between i s (set_values now (channel_reg i r) (v ∷ []) t) (sb.put b (channel_reg i r) v)
  unfolding set_values
  set_value-Between now i r v s t b small same h =
      dispatch-Between now i r s (record t { block = sb.put t.block (channel_reg i r) v })
        (sb.put b (channel_reg i r) v) small (same _)
        (store-Between _ _ (ap (λ x. sb.put x (channel_reg i r) v) h.stored) h)

  pub set_words-Between :
      (now : R) (i hi lo : ℕ) (s t : Chassis R B) (b : B)
      → i < 200
      → Between i s t b
      → Between i s (set_values now (channel_reg i ChannelReg.setpoint_hi) (hi ∷ lo ∷ []) t) (
          sb.put
            (sb.put b (channel_reg i ChannelReg.setpoint_hi) hi)
            (channel_reg i ChannelReg.setpoint_lo)
            lo)
  unfolding set_values put_values channel_write channel_offset
  set_words-Between now i hi lo s t b small h =
      rw (lo_after_hi, put_values)
        (dispatch-Between now i ChannelReg.setpoint_lo s _ _ small (λ c. refl)
          (dispatch-Between now i ChannelReg.setpoint_hi s _ _ small (λ c. refl)
            (store-Between _ _
              (ap
                (λ x.
                  sb.put (sb.put x (channel_reg i ChannelReg.setpoint_hi) hi)
                    (channel_reg i ChannelReg.setpoint_lo) lo)
                h.stored)
              h)))

  pub set_mode-Between :
      (now : R) (i : ℕ) (v : ℕ) (s t : Chassis R B) (b : B)
      → i < 200
      → (h : Between i s t b)
      → get_elem? (set_values now (channel_reg i ChannelReg.mode) (v ∷ []) t).channels i
        ≡ some (apply_registers now (sb.put b (channel_reg i ChannelReg.mode) v) i h.channel)
  unfolding channel_write channel_offset
  set_mode-Between now i v s t b small h =
      rw (set_values-channel_reg now i ChannelReg.mode v t small h.found, h.stored)
        (get_elem?-set_self t.channels i _ h.found)
