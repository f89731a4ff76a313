-- ===== src/Watchdog/Chamber/Timer.antt =====
-- The breach timer of a chamber, along its messages.
use battery_lab_sim.Prelude.{
  ◌≡◌, refl, subst, ◌∙◌, Bool, true, false, not, ◌||◌, String, String_eq, Option, none, some, List,
  [], ◌∷◌, ◌++◌, All, Bool-cases, inl, inr, if◌then◌else◌,
}
use text.Mathlib.Text.{◌==◌ as str_eq}
use text.Mathlib.TextEquality.{eq_iff}
use battery_lab_sim.Prelude.Float.{Float}
use battery_lab_sim.Prelude.Dict.{lookup, lookup-insert}
use battery_lab_sim.Watchdog.Dedupe.{AlertKey, AlertKey_eq, EdgeTrigger}
use battery_lab_sim.Watchdog.Chamber.{
  ChamberState, ChamberStates, Ambient, in_breach, breach_timer, fold_msg, fresh_state, state_of,
  update_from_msg, is_breach_sustained, sweep, grace_active,
}

module _ {R : Type 0} ⦃fl : Float R⦄ where
  -- After a message the state of its chamber is folded with it, and every other chamber is as before.
  pub update_from_msg-lookup :
      (now : R) (msg : Ambient R) (states : ChamberStates R) (cid : String)
      → lookup cid (update_from_msg now (some msg) states).by_id ≡ (
          if str_eq msg.chamber_id cid
          then some (fold_msg now states.breach_band_c msg (state_of now msg.chamber_id states))
          else lookup cid states.by_id)
  unfolding update_from_msg
  update_from_msg-lookup now msg states cid =
      lookup-insert msg.chamber_id cid
        (fold_msg now states.breach_band_c msg (state_of now msg.chamber_id states)) states.by_id

  -- The messages in order, with their times of arrival.
  unfoldable pub update_all : List (R × Option (Ambient R)) → ChamberStates R → ChamberStates R
  update_all [] states = states
  update_all ((now, msg) ∷ msgs) states = update_all msgs (update_from_msg now msg states)

  update_all-append :
      (xs ys : List (R × Option (Ambient R))) (states : ChamberStates R)
      → update_all (xs ++ ys) states ≡ update_all ys (update_all xs states)
  unfolding update_all
  update_all-append [] ys states = refl
  update_all-append ((now, msg) ∷ xs) ys states =
      update_all-append xs ys (update_from_msg now msg states)

  update_from_msg-band :
      (now : R) (msg : Option (Ambient R)) (states : ChamberStates R)
      → (update_from_msg now msg states).breach_band_c ≡ states.breach_band_c
  unfolding update_from_msg
  update_from_msg-band now none states = refl
  update_from_msg-band now (some msg) states = refl

  update_all-band :
      (msgs : List (R × Option (Ambient R))) (states : ChamberStates R)
      → (update_all msgs states).breach_band_c ≡ states.breach_band_c
  unfolding update_all
  update_all-band [] states = refl
  update_all-band ((now, msg) ∷ msgs) states =
      update_all-band msgs (update_from_msg now msg states) ∙ update_from_msg-band now msg states

  -- The distance of a reading from its setpoint is above the band.
  abbrev pub is_out : R → Ambient R → Bool
  is_out band msg = fl.lt band (fl.abs (fl.sub msg.measured_c msg.setpoint_c))

  -- A message does not parse, or is of another chamber.
  abbrev pub IsOther : String → R × Option (Ambient R) → Type 0
  IsOther cid (now, none) = Unit
  IsOther cid (now, some msg) = str_eq msg.chamber_id cid ≡ false

  -- A message is of another chamber, or its reading is out of the band.
  abbrev pub IsNotInside : String → R → R × Option (Ambient R) → Type 0
  IsNotInside cid band (now, none) = Unit
  IsNotInside cid band (now, some msg) = (not (str_eq msg.chamber_id cid) || is_out band msg) ≡ true

  abbrev timer_of : Option (ChamberState R) → Option R
  timer_of none = none
  timer_of (some st) = st.breach_started

  -- The breach timer of a chamber; one that is not known has none.
  abbrev timer : String → ChamberStates R → Option R
  timer cid states = timer_of (lookup cid states.by_id)

  folded-timer :
      (now band : R) (msg : Ambient R) (o : Option (ChamberState R))
      → (fold_msg now band msg (elim o [ none ↦ fresh_state now | some st ↦ st ])).breach_started
        ≡ breach_timer (is_out band msg) now (timer_of o)
  unfolding fold_msg in_breach fresh_state
  folded-timer now band msg none = refl
  folded-timer now band msg (some st) = refl

  timer_own :
      (now : R) (cid : String) (msg : Ambient R) (states : ChamberStates R)
      → str_eq msg.chamber_id cid ≡ true
      → timer cid (update_from_msg now (some msg) states)
        ≡ breach_timer (is_out states.breach_band_c msg) now (timer cid states)
  unfolding state_of
  timer_own now cid msg states own =
      let here : msg.chamber_id ≡ cid = (eq_iff msg.chamber_id cid).0 own in
      rw (update_from_msg-lookup now msg states cid, own)
        (folded-timer now states.breach_band_c msg (lookup msg.chamber_id states.by_id)
          ∙ rw here refl)

  timer_other :
      (now : R) (cid : String) (msg : Ambient R) (states : ChamberStates R)
      → str_eq msg.chamber_id cid ≡ false
      → timer cid (update_from_msg now (some msg) states) ≡ timer cid states
  timer_other now cid msg states other = rw (update_from_msg-lookup now msg states cid, other) refl

  All-IsOther-timer :
      (cid : String) (msgs : List (R × Option (Ambient R))) (states : ChamberStates R)
      → All (IsOther cid) msgs
      → timer cid (update_all msgs states) ≡ timer cid states
  unfolding update_all update_from_msg
  All-IsOther-timer cid [] states all = refl
  All-IsOther-timer cid ((now, none) ∷ msgs) states all = All-IsOther-timer cid msgs states all.1
  All-IsOther-timer cid ((now, some msg) ∷ msgs) states all =
      All-IsOther-timer cid msgs (update_from_msg now (some msg) states) all.1
      ∙ timer_other now cid msg states all.0

  -- A timer that runs goes on while no reading of its chamber is inside the band.
  not_inside-timer :
      (cid : String) (t : R) (msgs : List (R × Option (Ambient R))) (states : ChamberStates R)
      → All (IsNotInside cid states.breach_band_c) msgs
      → timer cid states ≡ some t
      → timer cid (update_all msgs states) ≡ some t
  unfolding update_all update_from_msg
  not_inside-timer cid t [] states all h = h
  not_inside-timer cid t ((now, none) ∷ msgs) states all h =
      not_inside-timer cid t msgs states all.1 h
  not_inside-timer cid t ((now, some msg) ∷ msgs) states all h =
      not_inside-timer cid t msgs (update_from_msg now (some msg) states) all.1
        (elim (Bool-cases (str_eq msg.chamber_id cid)) [
          | inr other ↦ timer_other now cid msg states other ∙ h
          | inl own ↦
              let out : is_out states.breach_band_c msg ≡ true =
                subst (λ b. (not b || is_out states.breach_band_c msg) ≡ true) own all.0 in
              timer_own now cid msg states own ∙ rw (h, out) refl
        ])

  -- The chamber's state, and that its breach is sustained as soon as it lasts longer than `duration`
  -- from `t` on.
  abbrev pub IsBreachedSince : String → R → R → R → ChamberStates R → Type 0
  IsBreachedSince cid t later duration states =
      (st : ChamberState R) × (lookup cid states.by_id ≡ some st)
      × (st.breach_started ≡ some t)
      × (is_breach_sustained later st duration ≡ fl.lt duration (fl.sub later t))

  -- The timer after a reading inside, one outside, and others that are not inside.
  run-timer :
      (cid : String) (t0 t : R) (inside first : Ambient R)
      (between run : List (R × Option (Ambient R))) (states : ChamberStates R)
      → str_eq inside.chamber_id cid ≡ true
      → is_out states.breach_band_c inside ≡ false
      → All (IsOther cid) between
      → str_eq first.chamber_id cid ≡ true
      → is_out states.breach_band_c first ≡ true
      → All (IsNotInside cid states.breach_band_c) run
      → timer cid (update_all ((t0, some inside) ∷ (between ++ ((t, some first) ∷ run))) states)
        ≡ some t
  unfolding update_all breach_timer
  run-timer cid t0 t inside first between run states hi ki hb hf kf hr =
      let s2 = update_from_msg t0 (some inside) states in
      let s3 = update_all between s2 in
      let s4 = update_from_msg t (some first) s3 in
      let band3 : s3.breach_band_c ≡ states.breach_band_c =
        update_all-band between s2 ∙ update_from_msg-band t0 (some inside) states in
      let band4 : s4.breach_band_c ≡ states.breach_band_c =
        update_from_msg-band t (some first) s3 ∙ band3 in
      let idle : timer cid s3 ≡ none =
        All-IsOther-timer cid between s2 hb ∙ timer_own t0 cid inside states hi ∙ rw ki refl in
      let started : timer cid s4 ≡ some t =
        timer_own t cid first s3 hf ∙ rw (band3, kf, idle) refl in
      rw update_all-append (not_inside-timer cid t run s4 (rw band4 hr) started)

  known-IsBreachedSince :
      (cid : String) (t later duration : R) (states : ChamberStates R)
      → timer cid states ≡ some t
      → IsBreachedSince cid t later duration states
  unfolding is_breach_sustained
  known-IsBreachedSince cid t later duration states h = go (lookup cid states.by_id) refl h
    where
      go :
          (o : Option (ChamberState R))
          → lookup cid states.by_id ≡ o
          → timer_of o ≡ some t
          → IsBreachedSince cid t later duration states
      go none e k = cc
      go (some st) e k = (st, e, k, rw k refl)

  -- If a message of a chamber has its reading inside the band, the next one of that chamber is outside,
  -- and later ones stay outside, with any messages of other chambers and any that do not parse in
  -- between, whatever came before: then the breach timer of the chamber is the time of that first message
  -- outside, and the breach counts as sustained from `duration` after it on.
  pub update_all-IsBreachedSince :
      (cid : String) (t0 t later duration : R) (inside first : Ambient R)
      (before between run : List (R × Option (Ambient R))) (states : ChamberStates R)
      → str_eq inside.chamber_id cid ≡ true
      → is_out states.breach_band_c inside ≡ false
      → All (IsOther cid) between
      → str_eq first.chamber_id cid ≡ true
      → is_out states.breach_band_c first ≡ true
      → All (IsNotInside cid states.breach_band_c) run
      → IsBreachedSince cid t later duration
          (update_all (before ++ ((t0, some inside) ∷ (between ++ ((t, some first) ∷ run)))) states)
  update_all-IsBreachedSince cid t0 t later duration inside first before between run states hi ki hb
        hf kf hr =
      let s1 = update_all before states in
      let same = update_all-band before states in
      known-IsBreachedSince cid t later duration
        (update_all (before ++ ((t0, some inside) ∷ (between ++ ((t, some first) ∷ run)))) states)
        (rw update_all-append (
          run-timer cid t0 t inside first between run s1 hi (rw same ki) hb hf (rw same kf)
            (rw same hr)))

  -- A reading inside the band re-arms the chamber: no later time counts as a sustained breach.
  pub fold_msg-rearms :
      (now later band duration : R) (msg : Ambient R) (st : ChamberState R)
      → in_breach band msg ≡ false
      → is_breach_sustained later (fold_msg now band msg st) duration ≡ false
  unfolding fold_msg is_breach_sustained breach_timer
  fold_msg-rearms now later band duration msg st h = rw h

  -- Nothing is alerted and no edge is consumed while the startup grace lasts.
  pub sweep-in_grace :
      (now : R) (states : ChamberStates R) (edge : EdgeTrigger AlertKey)
      → grace_active now states ≡ true
      → sweep now states edge ≡ ([], edge)
  unfolding sweep
  sweep-in_grace now states edge h = rw h
