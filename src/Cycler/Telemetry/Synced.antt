-- ===== src/Cycler/Telemetry/Synced.antt =====
-- What single publishes and turns do to what the publisher records and the broker retains.
use battery_lab_sim.Prelude.{
  ℕ, ℕ_eq, ◌≡◌, ◌≢◌, ◌⊎◌, refl, sym, true, ap, All, ◌∙◌, false, Option, none, some, List, [], ◌∷◌,
  ◌++◌, arith, ◌==◌, Bool-cases, inl, inr,
}
use battery_lab_sim.Prelude.Dict.{lookup, insert, lookup-insert}
use battery_lab_sim.Prelude.Float.{Float}
use battery_lab_sim.Models.{
  ChannelMode, ErrorCode, overvoltage, overtemp, watchdog_timeout, internal_short, thermal_runaway,
  dead, error_value, error_of_value,
}
use battery_lab_sim.Modbus.{mode_value, mode_of_value}
use battery_lab_sim.Modbus.RoundTrip.{mode_of_value-mode_value}
use battery_lab_sim.Cycler.Telemetry.{
  Delivered, acknowledged, undelivered, unacknowledged, StateKey, state_beq, StatePayload,
  Publisher, Sampled, state_key, has_changed, publish_state, publish_changed, telemetry_payload,
  publish_channel, publish_turn, publish_turns,
}

module _ {R : Type 0} where
  -- The state that the broker retains for a channel.
  abbrev pub state_in : Option (StatePayload R) → Option StateKey
  state_in none = none
  state_in (some payload) = some payload.state

  -- For a channel, the broker retains the state that the publisher last saw, or nothing was published
  -- since `start`.
  abbrev pub IsInSync : Publisher R → ℕ → Publisher R → Type 0
  IsInSync start idx p =
      (state_in (lookup idx p.retained) ≡ lookup idx p.last_state)
      ⊎ ((lookup idx p.retained ≡ lookup idx start.retained)
          × (lookup idx p.last_state ≡ lookup idx start.last_state))

  inserted-IsInSync :
      (start : Publisher R) (idx k : ℕ) (payload : StatePayload R) (p : Publisher R)
      → IsInSync start idx p
      → IsInSync start idx (record p {
        retained = insert k payload p.retained;
        last_state = insert k payload.state p.last_state;
      })
  inserted-IsInSync start idx k payload p h = rw (lookup-insert k idx payload p.retained) (
      rw (lookup-insert k idx payload.state p.last_state)
        (elim (Bool-cases (k == idx)) [ inl e ↦ rw e (inl refl) | inr e ↦ rw e h ]))

  -- The publish of the channel's state was not delivered without an acknowledgement.
  abbrev pub IsDefinite : Sampled R → Type 0
  IsDefinite s = s.state_publish ≢ unacknowledged

  -- Both publishes of the channel return.
  abbrev pub IsTaken : Sampled R → Type 0
  IsTaken s = (s.telemetry_ok ≡ true) × (s.state_publish ≡ acknowledged)

  abbrev pub AreDefinite : R × List (Sampled R) → Type 0
  AreDefinite (now, ss) = All IsDefinite ss

mode_value-injective : (m n : ChannelMode) → mode_value m ≡ mode_value n → m ≡ n
mode_value-injective m n e =
    let same : some m ≡ some n =
      sym (mode_of_value-mode_value m) ∙ ap mode_of_value e ∙ mode_of_value-mode_value n in
    cc

error_of_value-error_value : (a : ErrorCode) → error_of_value (error_value a) ≡ some a
unfolding error_of_value error_value
error_of_value-error_value ErrorCode.none = refl
error_of_value-error_value overvoltage = refl
error_of_value-error_value overtemp = refl
error_of_value-error_value watchdog_timeout = refl
error_of_value-error_value internal_short = refl
error_of_value-error_value thermal_runaway = refl
error_of_value-error_value dead = refl

error_value-injective : (a b : ErrorCode) → error_value a ≡ error_value b → a ≡ b
error_value-injective a b e =
    let same : some a ≡ some b =
      sym (error_of_value-error_value a) ∙ ap error_of_value e ∙ error_of_value-error_value b in
    cc

state_beq-same : (a b : StateKey) → state_beq a b ≡ true → a ≡ b
state_beq-same a b e =
    let values : (mode_value a.mode ≡ mode_value b.mode)
        × (error_value a.error ≡ error_value b.error) =
      ground arith in
    let mode = mode_value-injective a.mode b.mode values.0 in
    let error = error_value-injective a.error b.error values.1 in cc

has_changed-false :
    (cur : StateKey) (last : Option StateKey) → has_changed cur last ≡ false → last ≡ some cur
unfolding has_changed
has_changed-false cur none e = cc
has_changed-false cur (some last) e = elim (Bool-cases (state_beq cur last)) [
  | inl same ↦ ap some (sym (state_beq-same cur last same))
  | inr other ↦ ground arith
]

pub IsTaken-IsDefinite : {R : Type 0} (ss : List (Sampled R)) → All IsTaken ss → All IsDefinite ss
IsTaken-IsDefinite [] h = tt
IsTaken-IsDefinite (s ∷ ss) h = ((λ e. cc), IsTaken-IsDefinite ss h.1)

module _ {R : Type 0} ⦃fl : Float R⦄ (round : R → ℕ → R) where
  changed-IsInSync :
      (start : Publisher R) (idx k : ℕ) (cur : StateKey) (answer : Delivered) (now : R)
      (p : Publisher R)
      → answer ≢ unacknowledged
      → IsInSync start idx p
      → IsInSync start idx (publish_changed answer now k cur p).1
  changed-IsInSync start idx k cur acknowledged now p d h =
      inserted-IsInSync start idx k (record { t = now; state = cur }) p h
  changed-IsInSync start idx k cur undelivered now p d h = h
  changed-IsInSync start idx k cur unacknowledged now p d h = absurd (d refl)

  pub publish_channel-IsInSync :
      (start : Publisher R) (idx : ℕ) (now : R) (s : Sampled R) (p : Publisher R)
      → IsDefinite s
      → IsInSync start idx p
      → IsInSync start idx (publish_channel round now s p).1
  unfolding publish_channel publish_state
  publish_channel-IsInSync start idx now s p d h = elim (Bool-cases s.telemetry_ok) [
    | inr e ↦ rw (e, publish_channel) h
    | inl e ↦
        let sent = record p {
          sent = p.sent ++ (s.before.idx, telemetry_payload round now s.before) ∷ [];
        } in
        rw (e, publish_channel)
          (elim (Bool-cases (has_changed (state_key s.after) (lookup s.before.idx p.last_state))) [
            | inr c ↦ rw (c, publish_state) h
            | inl c ↦
                rw (c, publish_state)
                  (changed-IsInSync start idx s.before.idx (state_key s.after) s.state_publish now
                    sent d h)
          ])
  ]

  pub publish_turn-IsInSync :
      (start : Publisher R) (idx : ℕ) (now : R) (ss : List (Sampled R)) (p : Publisher R)
      → All IsDefinite ss
      → IsInSync start idx p
      → IsInSync start idx (publish_turn round now ss p)
  unfolding publish_turn
  publish_turn-IsInSync start idx now [] p d h = h
  publish_turn-IsInSync start idx now (s ∷ ss) p d h =
      let r = publish_channel round now s p in
      let h' = publish_channel-IsInSync start idx now s p d.0 h in
      elim (Bool-cases r.0) [
        | inr e ↦ rw (e, publish_turn) h'
        | inl e ↦ rw (e, publish_turn) (publish_turn-IsInSync start idx now ss r.1 d.1 h')
      ]

  pub publish_turns-IsInSync :
      (start : Publisher R) (idx : ℕ) (turns : List (R × List (Sampled R))) (p : Publisher R)
      → All AreDefinite turns
      → IsInSync start idx p
      → IsInSync start idx (publish_turns round turns p)
  unfolding publish_turns
  publish_turns-IsInSync start idx [] p d h = h
  publish_turns-IsInSync start idx ((now, ss) ∷ turns) p d h =
      publish_turns-IsInSync start idx turns (publish_turn round now ss p) d.1
        (publish_turn-IsInSync start idx now ss p d.0 h)

  -- A channel whose publishes return: the turn goes on, and its state is recorded.
  pub taken-goes_on :
      (now : R) (s : Sampled R) (p : Publisher R)
      → IsTaken s
      → let r = publish_channel round now s p in
        (r.0 ≡ true) × (lookup s.before.idx r.1.last_state ≡ some (state_key s.after))
  unfolding publish_channel publish_state
  taken-goes_on now s p h =
      let cur = state_key s.after in
      rw (h.0, publish_channel)
        (elim (Bool-cases (has_changed cur (lookup s.before.idx p.last_state))) [
          | inr c ↦
              rw (c, publish_state)
                (refl, has_changed-false cur (lookup s.before.idx p.last_state) c)
          | inl c ↦
              rw (c, publish_state, h.1)
                (
                  refl,
                  lookup-insert s.before.idx s.before.idx cur p.last_state
                      ∙ rw ((ℕ_eq.beq_iff s.before.idx s.before.idx).1 refl) refl,
                )
        ])

  pub publish_turn-append :
      (now : R) (pre rest : List (Sampled R)) (p : Publisher R)
      → All IsTaken pre
      → publish_turn round now (pre ++ rest) p
        ≡ publish_turn round now rest (publish_turn round now pre p)
  unfolding publish_turn
  publish_turn-append now [] rest p h = refl
  publish_turn-append now (s ∷ pre) rest p h =
      rw ((taken-goes_on now s p h.0).0, publish_turn)
        (publish_turn-append now pre rest (publish_channel round now s p).1 h.1)

  pub publish_turns-append :
      (turns last : List (R × List (Sampled R))) (p : Publisher R)
      → publish_turns round (turns ++ last) p
        ≡ publish_turns round last (publish_turns round turns p)
  unfolding publish_turns
  publish_turns-append [] last p = refl
  publish_turns-append ((now, ss) ∷ turns) last p =
      publish_turns-append turns last (publish_turn round now ss p)

  -- What the broker and the publisher hold for a channel.
  abbrev SameFor : ℕ → Publisher R → Publisher R → Type 0
  SameFor idx p q =
      (lookup idx q.retained ≡ lookup idx p.retained)
      × (lookup idx q.last_state ≡ lookup idx p.last_state)

  changed-SameFor :
      (idx k : ℕ) (cur : StateKey) (answer : Delivered) (now : R) (p : Publisher R)
      → (k == idx) ≡ false
      → SameFor idx p (publish_changed answer now k cur p).1
  changed-SameFor idx k cur acknowledged now p h = (
    lookup-insert k idx (record { t = now; state = cur }) p.retained ∙ rw h refl,
    lookup-insert k idx cur p.last_state ∙ rw h refl,
  )
  changed-SameFor idx k cur undelivered now p h = (refl, refl)
  changed-SameFor idx k cur unacknowledged now p h =
      (lookup-insert k idx (record { t = now; state = cur }) p.retained ∙ rw h refl, refl)

  publish_channel-SameFor :
      (idx : ℕ) (now : R) (s : Sampled R) (p : Publisher R)
      → (s.before.idx == idx) ≡ false
      → SameFor idx p (publish_channel round now s p).1
  unfolding publish_channel publish_state
  publish_channel-SameFor idx now s p h = elim (Bool-cases s.telemetry_ok) [
    | inr e ↦ rw (e, publish_channel) (refl, refl)
    | inl e ↦
        let sent = record p {
          sent = p.sent ++ (s.before.idx, telemetry_payload round now s.before) ∷ [];
        } in
        rw (e, publish_channel)
          (elim (Bool-cases (has_changed (state_key s.after) (lookup s.before.idx p.last_state))) [
            | inr c ↦ rw (c, publish_state) (refl, refl)
            | inl c ↦
                rw (c, publish_state)
                  (changed-SameFor idx s.before.idx (state_key s.after) s.state_publish now sent h)
          ])
  ]

  pub publish_turn-SameFor :
      (idx : ℕ) (now : R) (ss : List (Sampled R)) (p : Publisher R)
      → All (λ s. (s.before.idx == idx) ≡ false) ss
      → SameFor idx p (publish_turn round now ss p)
  unfolding publish_turn
  publish_turn-SameFor idx now [] p h = (refl, refl)
  publish_turn-SameFor idx now (s ∷ ss) p h =
      let r = publish_channel round now s p in
      let one = publish_channel-SameFor idx now s p h.0 in
      elim (Bool-cases r.0) [
        | inr e ↦ rw (e, publish_turn) one
        | inl e ↦
            let rest = publish_turn-SameFor idx now ss r.1 h.1 in
            rw (e, publish_turn) (rest.0 ∙ one.0, rest.1 ∙ one.1)
      ]
