-- ===== src/Cycler/Telemetry/Retained.antt =====
-- What the broker retains of a channel's state.
use battery_lab_sim.Prelude.{
  ℕ, ℕ_eq, ◌≡◌, ◌⊎◌, refl, sym, ap, All, ◌∙◌, false, some, List, [], ◌∷◌, ◌++◌, arith, ◌==◌,
  Bool-cases, inl, inr,
}
use battery_lab_sim.Prelude.Dict.{lookup}
use battery_lab_sim.Prelude.Float.{Float}
use battery_lab_sim.Cycler.Telemetry.{
  StateKey, Publisher, Sampled, state_key, has_changed, publish_state, publish_channel,
  publish_turn, publish_turns,
}
use battery_lab_sim.Cycler.Telemetry.Synced.{
  IsTaken-IsDefinite, publish_channel-IsInSync, publish_turn-IsInSync, publish_turns-IsInSync,
  taken-goes_on, publish_turn-append, publish_turns-append, publish_turn-SameFor, IsInSync, IsTaken,
  state_in, AreDefinite, IsDefinite,
}

module _ {R : Type 0} where
  -- The broker retains the channel's state, or that is what the channel started with, and nothing was
  -- retained for it since.
  abbrev pub IsRetained : Publisher R → Sampled R → Publisher R → Type 0
  IsRetained start s p =
      (state_in (lookup s.before.idx p.retained) ≡ some (state_key s.after))
      ⊎ ((lookup s.before.idx p.retained ≡ lookup s.before.idx start.retained)
          × (lookup s.before.idx start.last_state ≡ some (state_key s.after)))

module _ {R : Type 0} ⦃fl : Float R⦄ (round : R → ℕ → R) where
  reached-IsRetained :
      (start : Publisher R) (now : R) (s : Sampled R) (post : List (Sampled R)) (p : Publisher R)
      → IsInSync start s.before.idx p
      → IsTaken s
      → All (λ q. (q.before.idx == s.before.idx) ≡ false) post
      → IsRetained start s (publish_turn round now (s ∷ post) p)
  unfolding publish_turn
  reached-IsRetained start now s post p h taken others =
      let r = publish_channel round now s p in
      let on = taken-goes_on round now s p taken in
      let definite : IsDefinite s = (λ e. cc) in
      let kept = publish_turn-SameFor round s.before.idx now post r.1 others in
      rw (on.0, publish_turn, kept.0)
        (elim (publish_channel-IsInSync round start s.before.idx now s p definite h) [
          | inl e ↦ inl (e ∙ on.1)
          | inr e ↦ inr (e.0, sym e.1 ∙ on.1)
        ])

  -- If no state was delivered without an acknowledgement in the turns so far, whichever publishes failed
  -- in them, and a turn then reaches a channel, where the publishes before it and its own return and no
  -- channel behind it has its index, then, whatever fails behind it, the broker retains the state that
  -- the channel has in this turn; or that is the state that the channel started with, and the broker
  -- retains for the channel what it did at the start.
  pub publish_turns-IsRetained :
      (turns : List (R × List (Sampled R))) (now : R) (pre post : List (Sampled R)) (s : Sampled R)
      (start : Publisher R)
      → All AreDefinite turns
      → All IsTaken pre
      → IsTaken s
      → All (λ q. (q.before.idx == s.before.idx) ≡ false) post
      → IsRetained start s (publish_turns round (turns ++ (now, pre ++ s ∷ post) ∷ []) start)
  unfolding publish_turns
  publish_turns-IsRetained turns now pre post s start definite before taken others =
      let p = publish_turns round turns start in
      let synced =
        publish_turns-IsInSync round start s.before.idx turns start definite (inr (refl, refl)) in
      rw (publish_turns-append round, publish_turn-append round now pre (s ∷ post) p before)
        (reached-IsRetained start now s post (publish_turn round now pre p)
          (publish_turn-IsInSync round start s.before.idx now pre p (IsTaken-IsDefinite pre before)
            synced)
          taken others)

  -- The channel's state is the one that the publisher last recorded for it.
  abbrev pub IsSeen : Publisher R → Sampled R → Type 0
  IsSeen p s = lookup s.before.idx p.last_state ≡ some (state_key s.after)

  has_changed-same : (k : StateKey) → has_changed k (some k) ≡ false
  unfolding has_changed
  has_changed-same k = ground arith

  publish_channel-seen :
      (now : R) (s : Sampled R) (p : Publisher R)
      → IsSeen p s
      → let p' = (publish_channel round now s p).1 in
        (p'.retained ≡ p.retained) × (p'.last_state ≡ p.last_state)
  unfolding publish_channel publish_state
  publish_channel-seen now s p h = elim (Bool-cases s.telemetry_ok) [
    | inr e ↦ rw (e, publish_channel) (refl, refl)
    | inl e ↦
        let same : has_changed (state_key s.after) (lookup s.before.idx p.last_state) ≡ false =
          rw h (has_changed-same (state_key s.after)) in
        rw (e, publish_channel) (rw (same, publish_state) (refl, refl))
  ]

  IsSeen-again :
      (p q : Publisher R) (ss : List (Sampled R))
      → q.last_state ≡ p.last_state
      → All (IsSeen p) ss
      → All (IsSeen q) ss
  IsSeen-again p q [] e all = tt
  IsSeen-again p q (s ∷ ss) e all =
      (ap (lookup s.before.idx) e ∙ all.0, IsSeen-again p q ss e all.1)

  -- A turn in which every channel's state is the one that was last recorded for it retains nothing new,
  -- whatever the broker retained before.
  pub publish_turn-seen :
      (now : R) (ss : List (Sampled R)) (p : Publisher R)
      → All (IsSeen p) ss
      → (publish_turn round now ss p).retained ≡ p.retained
  unfolding publish_turn
  publish_turn-seen now [] p all = refl
  publish_turn-seen now (s ∷ ss) p all =
      let r = publish_channel round now s p in
      let kept = publish_channel-seen now s p all.0 in
      elim (Bool-cases r.0) [
        | inr e ↦ rw (e, publish_turn) kept.0
        | inl e ↦
            rw (e, publish_turn)
              (publish_turn-seen now ss r.1 (IsSeen-again p r.1 ss kept.1 all.1) ∙ kept.0)
      ]
