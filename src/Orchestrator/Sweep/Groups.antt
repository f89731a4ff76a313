-- ===== src/Orchestrator/Sweep/Groups.antt =====
-- What a sweep visits: of each chassis exactly what it keeps, in order.
use battery_lab_sim.Prelude.{
  ℕ, ◌+◌, ℕ_eq, ◌≡◌, refl, sym, ap, ◌∙◌, Bool, true, false, All, ◌&&◌, ◌||◌, not, subst, List, [],
  ◌∷◌, ◌++◌, map, ◌==◌, ==_iff, if◌then◌else◌, Bool-cases, inl, inr,
}
use battery_lab_sim.Prelude.Dict.{lookup, insert, lookup-insert}
use battery_lab_sim.Orchestrator.Client.{kick_channel}
use battery_lab_sim.Orchestrator.State.{Experiment}
use battery_lab_sim.Orchestrator.Sweep.{
  items_or_empty, group, is_tickable, keepalive_groups, Connection, kick_chassis_channels,
}
use mathlib.Core.List.{append_assoc, append-nil}

module _ {B : Type 0} where
  abbrev append_item : ℕ → B → List (ℕ × List B) → List (ℕ × List B)
  append_item c item groups = insert c (items_or_empty (lookup c groups) ++ item ∷ []) groups

  lookup-append_own :
      (k c : ℕ) (item : B) (groups : List (ℕ × List B))
      → k ≡ c
      → items_or_empty (lookup c (append_item k item groups))
        ≡ items_or_empty (lookup c groups) ++ item ∷ []
  lookup-append_own k c item groups e =
      rw
        (
          e,
          lookup-insert c c (items_or_empty (lookup c groups) ++ item ∷ []) groups,
          (==_iff c c).1 refl,
        )
        refl

  lookup-append_other :
      (k c : ℕ) (item : B) (groups : List (ℕ × List B))
      → (k == c) ≡ false
      → lookup c (append_item k item groups) ≡ lookup c groups
  lookup-append_other k c item groups e =
      rw (lookup-insert k c (items_or_empty (lookup k groups) ++ item ∷ []) groups, e) refl

module _ {A B : Type 0} where
  -- The items of the elements that are kept and belong to a chassis, in order.
  unfoldable pub selected : (A → Bool) → (A → ℕ) → (A → B) → ℕ → List A → List B
  selected keep chassis item c [] = []
  selected keep chassis item c (a ∷ as') =
      let rest = selected keep chassis item c as' in
      if keep a && chassis a == c then item a ∷ rest else rest

  -- The group of a chassis is what it was, and then all its elements that are kept, once and in order.
  pub lookup-group :
      (keep : A → Bool) (chassis : A → ℕ) (item : A → B) (c : ℕ) (as' : List A)
      (groups : List (ℕ × List B))
      → items_or_empty (lookup c (group keep chassis item as' groups))
        ≡ items_or_empty (lookup c groups) ++ selected keep chassis item c as'
  unfolding group selected
  lookup-group keep chassis item c [] groups = sym (append-nil (items_or_empty (lookup c groups)))
  lookup-group keep chassis item c (a ∷ as') groups = elim (Bool-cases (keep a)) [
    | inl kept ↦ elim (Bool-cases (chassis a == c)) [
      | inl own ↦
          rw (kept, own)
            (lookup-group keep chassis item c as' (append_item (chassis a) (item a) groups)
              ∙ ap (λ is. is ++ selected keep chassis item c as')
                  (lookup-append_own (chassis a) c (item a) groups ((==_iff (chassis a) c).0 own))
              ∙ append_assoc (items_or_empty (lookup c groups)) (item a ∷ [])
                  (selected keep chassis item c as'))
      | inr other ↦
          rw (kept, other)
            (lookup-group keep chassis item c as' (append_item (chassis a) (item a) groups)
              ∙ ap (λ o. items_or_empty o ++ selected keep chassis item c as')
                  (lookup-append_other (chassis a) c (item a) groups other))
    ]
    | inr left ↦ rw left (lookup-group keep chassis item c as' groups)
  ]

-- If what is kept is of one chassis, it makes one group.
module _ {A : Type 0} (keep : A → Bool) (chassis : A → ℕ) (c : ℕ) where
  abbrev pub IsOf : A → Type 0
  IsOf a = (keep a ≡ true) × (chassis a ≡ c)

  -- The element is left out, or of the chassis.
  abbrev pub IsOfIfKept : A → Type 0
  IsOfIfKept a = (not (keep a) || chassis a == c) ≡ true

  -- What is kept, in order.
  unfoldable pub kept_of : List A → List A
  kept_of [] = []
  kept_of (a ∷ as') = let rest = kept_of as' in if keep a then a ∷ rest else rest

  IsOf-IfKept : (as' : List A) → All IsOf as' → All IsOfIfKept as'
  IsOf-IfKept [] h = tt
  IsOf-IfKept (a ∷ as') h = (rw (h.0.0, h.0.1, (==_iff c c).1 refl) refl, IsOf-IfKept as' h.1)

  kept_own : (a : A) → keep a ≡ true → IsOfIfKept a → chassis a ≡ c
  kept_own a k h = (==_iff (chassis a) c).0 (subst (λ b. (not b || chassis a == c) ≡ true) k h)

  group-onto :
      (xs as' : List A)
      → All IsOfIfKept as'
      → group keep chassis (λ a. a) as' ((c, xs) ∷ []) ≡ (c, xs ++ kept_of as') ∷ []
  unfolding group lookup insert kept_of
  group-onto xs [] h = ap (λ l. (c, l) ∷ []) (sym (append-nil xs))
  group-onto xs (a ∷ as') h = elim (Bool-cases (keep a)) [
    | inr left ↦ rw left (group-onto xs as' h.1)
    | inl kept ↦
        rw (kept, kept_own a kept h.0, (==_iff c c).1 refl)
          (group-onto (xs ++ a ∷ []) as' h.1
            ∙ ap (λ l. (c, l) ∷ []) (append_assoc xs (a ∷ []) (kept_of as')))
  ]

  group_first :
      (a : A) (as' : List A)
      → IsOfIfKept a
      → All IsOfIfKept as'
      → keep a ≡ true
      → group keep chassis (λ a. a) (a ∷ as') [] ≡ (c, a ∷ kept_of as') ∷ []
  unfolding group lookup insert
  group_first a as' h hs k = rw (k, kept_own a k h) (group-onto (a ∷ []) as' hs)

  group_skipped :
      (a : A) (as' : List A)
      → keep a ≡ false
      → group keep chassis (λ a. a) (a ∷ as') [] ≡ group keep chassis (λ a. a) as' []
  unfolding group
  group_skipped a as' left = rw left refl

  kept_of-All : (as' : List A) → All IsOf as' → kept_of as' ≡ as'
  unfolding kept_of
  kept_of-All [] h = refl
  kept_of-All (a ∷ as') h = rw h.0.0 (ap (λ l. a ∷ l) (kept_of-All as' h.1))

  pub group-onto-All :
      (xs as' : List A)
      → All IsOf as'
      → group keep chassis (λ a. a) as' ((c, xs) ∷ []) ≡ (c, xs ++ as') ∷ []
  group-onto-All xs as' h =
      group-onto xs as' (IsOf-IfKept as' h) ∙ ap (λ l. (c, xs ++ l) ∷ []) (kept_of-All as' h)

  kept_of-append :
      (pre : List A) (a : A) (post : List A)
      → keep a ≡ true
      → kept_of (pre ++ a ∷ post) ≡ kept_of pre ++ a ∷ kept_of post
  unfolding kept_of
  kept_of-append [] a post k = rw k refl
  kept_of-append (b ∷ pre) a post k = elim (Bool-cases (keep b)) [
    | inl kept ↦ rw kept (ap (λ l. b ∷ l) (kept_of-append pre a post k))
    | inr left ↦ rw left (kept_of-append pre a post k)
  ]

  pub group-single :
      (pre : List A) (a : A) (post : List A)
      → All IsOfIfKept (pre ++ a ∷ post)
      → keep a ≡ true
      → group keep chassis (λ a. a) (pre ++ a ∷ post) [] ≡ (c, kept_of pre ++ a ∷ kept_of post) ∷ []
  unfolding group lookup insert kept_of
  group-single [] a post h k = group_first a post h.0 h.1 k
  group-single (b ∷ pre) a post h k = elim (Bool-cases (keep b)) [
    | inr left ↦ group_skipped b (pre ++ a ∷ post) left ∙ rw left (group-single pre a post h.1 k)
    | inl kept ↦
        group_first b (pre ++ a ∷ post) h.0 h.1 kept
        ∙ rw kept (ap (λ l. (c, b ∷ l) ∷ []) (kept_of-append pre a post k))
  ]

kick_all :
    (fails : ℕ → Bool) (idxs : List ℕ) (s : Connection)
    → ((n : ℕ) → fails n ≡ false)
    → (kick_chassis_channels fails idxs s).writes ≡ s.writes ++ map kick_channel idxs
unfolding kick_chassis_channels
kick_all fails [] s up = sym (append-nil s.writes)
kick_all fails (idx ∷ idxs) s up =
    rw (up s.calls, kick_chassis_channels)
      (kick_all fails idxs
          (record s { calls = s.calls + 1; writes = s.writes ++ kick_channel idx ∷ [] }) up
        ∙ append_assoc s.writes (kick_channel idx ∷ []) (map kick_channel idxs))

-- If every call arrives, the keepalive sweep kicks every running channel of the chassis once, in order,
-- and nothing else.
pub kick_chassis_channels-all :
    {R : Type 0} (fails : ℕ → Bool) (known : List ℕ) (exps : List (Experiment R)) (c : ℕ)
    (s : Connection)
    → ((n : ℕ) → fails n ≡ false)
    → (kick_chassis_channels fails
        (items_or_empty (lookup c (keepalive_groups known exps)))
        s).writes
      ≡ s.writes
        ++ map kick_channel
            (selected (is_tickable known) (λ exp. exp.chassis_id) (λ exp. exp.channel_idx) c exps)
unfolding keepalive_groups
kick_chassis_channels-all fails known exps c s up =
    kick_all fails (items_or_empty (lookup c (keepalive_groups known exps))) s up
    ∙ ap (λ idxs. s.writes ++ map kick_channel idxs)
        (lookup-group (is_tickable known) (λ exp. exp.chassis_id) (λ exp. exp.channel_idx) c exps
          [])
