-- ===== src/Orchestrator/Client/Delivery.antt =====
-- The client's command, delivered to the chassis: the two ends agree on what it means.
use battery_lab_sim.Prelude.{
  ℕ, ◌<◌, ◌≡◌, ◌≢◌, refl, ◌∙◌, ap, false, some, [], ◌∷◌, arith, get_elem?,
}
use battery_lab_sim.Prelude.Float.{Float}
use battery_lab_sim.Models.{is_error, ChannelMode}
use battery_lab_sim.Modbus.{
  ChannelReg, channel_offset, channel_base, channel_reg, mode_value, encode_f32, decode_f32,
}
use battery_lab_sim.Modbus.RoundTrip.{mode_of_value-mode_value, decode_f32-encode_f32}
use battery_lab_sim.Cycler.Channel.{Channel, apply_command}
use battery_lab_sim.Cycler.Channel.Laws.{apply_command-commanded}
use battery_lab_sim.Cycler.Block.{SparseBlock}
use battery_lab_sim.Cycler.Registers.{
  Chassis, channel_write, apply_registers, mode_or_idle, set_values,
}
use battery_lab_sim.Orchestrator.Client.{send_command}
use battery_lab_sim.Orchestrator.Client.Between.{
  deliver, Between, set_value-Between, set_words-Between, set_mode-Between,
}

mode_or_idle-mode_value : (m : ChannelMode) → mode_or_idle (mode_value m) ≡ m
unfolding mode_or_idle
mode_or_idle-mode_value m = rw (mode_of_value-mode_value m, mode_or_idle)

module _ {R B : Type 0} ⦃fl : Float R⦄ ⦃sb : SparseBlock B⦄ where
  -- The block once a command is written.
  abbrev setpoint_block : B → ℕ → R → B
  setpoint_block b i setpoint =
      sb.put (sb.put b (channel_reg i ChannelReg.setpoint_hi) (encode_f32 setpoint).0)
        (channel_reg i ChannelReg.setpoint_lo) (encode_f32 setpoint).1

  abbrev limit_block : B → ℕ → R → ℕ → B
  limit_block b i setpoint v =
      sb.put (setpoint_block b i setpoint) (channel_reg i ChannelReg.safety_v_max_mv) v

  abbrev envelope_block : B → ℕ → R → ℕ → ℕ → B
  envelope_block b i setpoint v t =
      sb.put (limit_block b i setpoint v) (channel_reg i ChannelReg.safety_t_max_dc) t

  abbrev command_block : B → ℕ → ChannelMode → R → ℕ → ℕ → B
  command_block b i mode setpoint v t =
      sb.put (envelope_block b i setpoint v t) (channel_reg i ChannelReg.mode) (mode_value mode)

  -- What the handler reads back from the block is the command.
  command_block_reads :
      (b : B) (i : ℕ) (mode : ChannelMode) (setpoint : R) (v t : ℕ)
      → let b' = command_block b i mode setpoint v t in
        (sb.get b' (channel_reg i ChannelReg.mode) ≡ mode_value mode)
        × (sb.get b' (channel_reg i ChannelReg.setpoint_hi) ≡ (encode_f32 setpoint).0)
        × (sb.get b' (channel_reg i ChannelReg.setpoint_lo) ≡ (encode_f32 setpoint).1)
        × (sb.get b' (channel_reg i ChannelReg.safety_v_max_mv) ≡ v)
        × (sb.get b' (channel_reg i ChannelReg.safety_t_max_dc) ≡ t)
  unfolding channel_reg channel_base channel_offset
  command_block_reads b i mode setpoint v t = (
    simp sb.get_put (ground arith),
    simp sb.get_put (ground arith),
    simp sb.get_put (ground arith),
    simp sb.get_put (ground arith),
    simp sb.get_put (ground arith),
  )

  apply_registers-command_block :
      (now : R) (b : B) (i : ℕ) (mode : ChannelMode) (setpoint : R) (v t : ℕ) (ch : Channel R)
      → apply_registers now (command_block b i mode setpoint v t) i ch
        ≡ (apply_command now mode
            (decode_f32 (encode_f32 setpoint).0 (encode_f32 setpoint).1)
            v
            t
            ch).0
  unfolding apply_registers mode_or_idle
  apply_registers-command_block now b i mode setpoint v t ch =
      let reads = command_block_reads b i mode setpoint v t in
      let same_mode : mode_or_idle (sb.get _ (channel_reg i ChannelReg.mode)) ≡ mode =
        ap mode_or_idle reads.0 ∙ mode_or_idle-mode_value mode in
      λ k.
        (apply_command now (same_mode k) (decode_f32 (reads.1 k) (reads.2 k)) (reads.3 k)
          (reads.4 k) ch).0

  -- What the first three writes of a command leave.
  limits-Between :
      (clock : ℕ → R) (i : ℕ) (setpoint : R) (v t : ℕ) (s : Chassis R B) {ch : Channel R}
      → i < 200
      → get_elem? s.channels i ≡ some ch
      → is_error ch.latched_error ≡ false
      → Between i s
          (set_values (clock 2) (channel_reg i ChannelReg.safety_t_max_dc) (t ∷ []) (
            set_values (clock 1) (channel_reg i ChannelReg.safety_v_max_mv) (v ∷ []) (
              set_values
                (clock 0)
                (channel_reg i ChannelReg.setpoint_hi)
                ((encode_f32 setpoint).0 ∷ (encode_f32 setpoint).1 ∷ [])
                s)))
          (envelope_block s.block i setpoint v t)
  unfolding channel_write channel_offset
  limits-Between clock i setpoint v t s {ch} small found fine =
      let start : Between i s s s.block = record {
        channel = ch;
        found = found;
        unlatched = fine;
        others = λ j ne. refl;
        kick_kept = refl;
        stored = refl;
      } in
      set_value-Between (clock 2) i ChannelReg.safety_t_max_dc t s _ _ small (λ b c. refl)
        (set_value-Between (clock 1) i ChannelReg.safety_v_max_mv v s _ _ small (λ b c. refl)
          (set_words-Between (clock 0) i _ _ s s s.block small start))

  -- The four writes of `send_command` to a channel below 200 without an error, with nothing between
  -- them but time, leave the channel in the commanded mode and envelope, with a setpoint that is
  -- not more than 1e-9 away from the commanded one as a float32 carries it.
  pub send_command-delivered :
      (clock : ℕ → R) (i : ℕ) (mode : ChannelMode) (setpoint : R) (v t : ℕ) (s : Chassis R B)
      {ch : Channel R}
      → i < 200
      → get_elem? s.channels i ≡ some ch
      → is_error ch.latched_error ≡ false
      → let s' = deliver clock (send_command i mode setpoint v t) s in
        let sent = fl.unpack_f32 (fl.pack_f32 setpoint) in
        (ch' : Channel R) × (get_elem? s'.channels i ≡ some ch')
        × (ch'.mode ≡ mode)
        × (ch'.safety_v_max_mv ≡ v)
        × (ch'.safety_t_max_dc ≡ t)
        × (fl.lt (fl.lit 1 9) (fl.abs (fl.sub ch'.setpoint sent)) ≡ false)
  unfolding deliver send_command
  send_command-delivered clock i mode setpoint v t s small found fine =
      let h = limits-Between clock i setpoint v t s small found fine in
      let ran = set_mode-Between (clock 3) i (mode_value mode) s _ _ small h in
      let same = apply_registers-command_block (clock 3) s.block i mode setpoint v t h.channel in
      let done =
        apply_command-commanded (clock 3) mode
          (decode_f32 (encode_f32 setpoint).0 (encode_f32 setpoint).1) v t h.channel h.unlatched in
      (_, ran ∙ ap some same, done.0, done.1, done.2, rw (← decode_f32-encode_f32 setpoint) done.3)

  -- The writes of a command to a channel below 200 without an error leave the other channels of the
  -- chassis and its kick as they were.
  pub send_command-others :
      (clock : ℕ → R) (i j : ℕ) (mode : ChannelMode) (setpoint : R) (v t : ℕ) (s : Chassis R B)
      {ch : Channel R}
      → i < 200
      → get_elem? s.channels i ≡ some ch
      → is_error ch.latched_error ≡ false
      → i ≢ j
      → let s' = deliver clock (send_command i mode setpoint v t) s in
        (get_elem? s'.channels j ≡ get_elem? s.channels j) × (s'.kick_state ≡ s.kick_state)
  unfolding deliver send_command channel_write channel_offset
  send_command-others clock i j mode setpoint v t s small found fine ne =
      let h = limits-Between clock i setpoint v t s small found fine in
      let k =
        set_value-Between (clock 3) i ChannelReg.mode (mode_value mode) s _ _ small (λ b c. refl)
          h in
      (k.others j ne, k.kick_kept)
