-- ===== src/Orchestrator/Gather/Visits.antt =====
-- Which items the coroutines of a gather visit, in every order of the turns.
use battery_lab_sim.Prelude.{
  ℕ, zero, suc, ◌≡◌, ◌≢◌, refl, sym, ap, subst, ◌∙◌, ◌⊎◌, inl, inr, Option, none, some, List, [],
  ◌∷◌, ◌++◌, map, All,
}
use battery_lab_sim.Orchestrator.State.{Result, ok, raise}
use battery_lab_sim.Orchestrator.Gather.{
  Task, after_visit, visit_next, advance_task, take_turn, turns, visit_rest, await_all, gather,
}
use battery_lab_sim.Orchestrator.Gather.Ends.{HasEnded, gather-HasEnded}
use mathlib.Core.List.{append_assoc}

-- Two lists of the same length, related place by place.
abbrev pub Pairwise : {T : Type 0} → (T → T → Type 0) → List T → List T → Type 0
Pairwise r [] [] = Unit
Pairwise r [] (y ∷ ys) = ⊥
Pairwise r (x ∷ xs) [] = ⊥
Pairwise r (x ∷ xs) (y ∷ ys) = r x y × Pairwise r xs ys

module _ {S A B : Type 0} (visit : A → S → Result (Option B) × S)
    (Follows : Task A B → Task A B → Type 0) (same : (t : Task A B) → Follows t t)
    (chain : (t u v : Task A B) → Follows t u → Follows u v → Follows t v)
    (step : (t : Task A B) (s : S) → Follows t (advance_task visit t s).0) where
  all_same : (ts : List (Task A B)) → Pairwise Follows ts ts
  all_same [] = tt
  all_same (t ∷ ts) = (same t, all_same ts)

  all_chain :
      (ts us vs : List (Task A B))
      → Pairwise Follows ts us
      → Pairwise Follows us vs
      → Pairwise Follows ts vs
  all_chain [] [] [] h k = tt
  all_chain [] [] (v ∷ vs) h k = k
  all_chain [] (u ∷ us) vs h k = absurd h
  all_chain (t ∷ ts) [] vs h k = absurd h
  all_chain (t ∷ ts) (u ∷ us) [] h k = k
  all_chain (t ∷ ts) (u ∷ us) (v ∷ vs) h k = (chain t u v h.0 k.0, all_chain ts us vs h.1 k.1)

  take_turn-Follows :
      (i : ℕ) (ts : List (Task A B)) (s : S) → Pairwise Follows ts (take_turn visit i ts s).0
  unfolding take_turn
  take_turn-Follows i [] s = tt
  take_turn-Follows zero (t ∷ ts) s = (step t s, all_same ts)
  take_turn-Follows (suc i) (t ∷ ts) s = (same t, take_turn-Follows i ts s)

  turns-Follows :
      (is : List ℕ) (ts : List (Task A B)) (s : S) → Pairwise Follows ts (turns visit is ts s).0
  unfolding turns
  turns-Follows [] ts s = all_same ts
  turns-Follows (i ∷ is) ts s =
      all_chain ts (take_turn visit i ts s).0
        (turns visit is (take_turn visit i ts s).0 (take_turn visit i ts s).1).0
        (take_turn-Follows i ts s)
        (turns-Follows is (take_turn visit i ts s).0 (take_turn visit i ts s).1)

  visit_rest-Follows :
      (as' : List A) (t : Task A B) (s : S) → Follows t (visit_rest visit as' t s).0
  unfolding visit_rest
  visit_rest-Follows [] t s = same t
  visit_rest-Follows (a ∷ as') t s =
      chain t (advance_task visit t s).0 _ (step t s)
        (visit_rest-Follows as' (advance_task visit t s).0 (advance_task visit t s).1)

  await_all-Follows : (ts : List (Task A B)) (s : S) → Pairwise Follows ts (await_all visit ts s).0
  unfolding await_all
  await_all-Follows [] s = tt
  await_all-Follows (t ∷ ts) s =
      (visit_rest-Follows t.items t s, await_all-Follows ts (visit_rest visit t.items t s).1)

  pub gather-Follows :
      (order : List ℕ) (ts : List (Task A B)) (s : S)
      → Pairwise Follows ts (gather visit order ts s).0
  unfolding gather
  gather-Follows order ts s =
      let r = turns visit order ts s in
      all_chain ts r.0 (await_all visit r.0 r.1).0 (turns-Follows order ts s)
        (await_all-Follows r.0 r.1)

-- A visit of an item that returned, with the states before and after it.
pub record Visit (A S : Type 0) : Type 0 where
  pub item : A
  pub before : S
  pub after : S

-- The visit, with what it did as its result if it does not raise.
abbrev pub as_result :
    {S A B : Type 0} → A → S → Result (Option B) × S → Result (Option (Visit A S)) × S
as_result a s (ok o, s') = (ok (some (record { item = a; before = s; after = s' })), s')
as_result a s (raise e, s') = (raise e, s')

abbrev pub recorded :
    {S A B : Type 0} → (A → S → Result (Option B) × S) → A → S → Result (Option (Visit A S)) × S
recorded visit a s = as_result a s (visit a s)

abbrev pub visited : {A S : Type 0} → List (Visit A S) → List A
visited vs = map (λ v. v.item) vs

-- How a coroutine `t` stands as `u` later: what was visited and what is left are what they were, and
-- what is left is dropped only by an exception. One that has ended does not change.
pub record Visited {A S : Type 0} (t u : Task A (Visit A S)) : Type 0 where
  pub rest : List A
  pub plan : visited u.results ++ rest ≡ visited t.results ++ t.items
  pub state : ((rest ≡ u.items) × (u.raised ≡ t.raised)) ⊎ ((u.items ≡ []) × (u.raised ≢ none))
  pub still : t.items ≡ [] → u ≡ t

visited-append :
    {A S : Type 0} (vs : List (Visit A S)) (v : Visit A S)
    → visited (vs ++ v ∷ []) ≡ visited vs ++ v.item ∷ []
visited-append [] v = refl
visited-append (w ∷ vs) v = ap (λ l. w.item ∷ l) (visited-append vs v)

module _ {A S : Type 0} where
  Visited-same : (t : Task A (Visit A S)) → Visited t t
  Visited-same t = record {
    rest = t.items;
    plan = refl;
    state = inl (refl, refl);
    still = λ e. refl;
  }

  still_chain : (t u v : Task A (Visit A S)) → Visited t u → Visited u v → t.items ≡ [] → v ≡ t
  still_chain t u v p q e =
      let same = p.still e in q.still (ap (λ (w : Task A (Visit A S)). w.items) same ∙ e) ∙ same

  Visited-chain : (t u v : Task A (Visit A S)) → Visited t u → Visited u v → Visited t v
  Visited-chain t u v p q = elim p.state [
    | inl h ↦ record {
      rest = q.rest;
      plan = q.plan ∙ ap (λ l. visited u.results ++ l) (sym h.0) ∙ p.plan;
      state = elim q.state [ inl k ↦ inl (k.0, k.1 ∙ h.1) | inr k ↦ inr k ];
      still = still_chain t u v p q;
    }
    | inr h ↦ subst (Visited t) (sym (q.still h.0)) p
  ]

module _ {A S : Type 0} where
  -- What the end of a gather says of a coroutine that had nothing collected and had not raised.
  abbrev pub IsComplete : Task A (Visit A S) → Task A (Visit A S) → Type 0
  IsComplete t u =
      (rest : List A) × (visited u.results ++ rest ≡ t.items) × ((rest ≡ []) ⊎ (u.raised ≢ none))

  abbrev pub IsNew : Task A (Visit A S) → Type 0
  IsNew t = t.results ≡ []

  ended : (t u : Task A (Visit A S)) → IsNew t → HasEnded u → Visited t u → IsComplete t u
  ended t u n e p = (
    p.rest,
    p.plan ∙ ap (λ l. visited l ++ t.items) n,
    elim p.state [ inl h ↦ inl (h.0 ∙ e) | inr h ↦ inr h.1 ],
  )

  All-ended :
      (ts us : List (Task A (Visit A S)))
      → All IsNew ts
      → All HasEnded us
      → Pairwise Visited ts us
      → Pairwise IsComplete ts us
  All-ended [] [] n e h = tt
  All-ended [] (u ∷ us) n e h = h
  All-ended (t ∷ ts) [] n e h = h
  All-ended (t ∷ ts) (u ∷ us) n e h = (ended t u n.0 e.0 h.0, All-ended ts us n.1 e.1 h.1)

module _ {S A B : Type 0} (visit : A → S → Result (Option B) × S) where
  after_visit-Visited :
      (a : A) (s0 : S) (rest : List A) (t : Task A (Visit A S)) (r : Result (Option B) × S)
      → t.items ≡ a ∷ rest
      → Visited t (after_visit rest t (as_result a s0 r)).0
  after_visit-Visited a s0 rest t (ok o, s) e = record {
    rest = rest;
    plan =
        ap (λ l. l ++ rest) (visited-append t.results (record { item = a; before = s0; after = s }))
        ∙ append_assoc (visited t.results) (a ∷ []) rest
        ∙ ap (λ l. visited t.results ++ l) (sym e);
    state = inl (refl, refl);
    still = λ k. cc;
  }
  after_visit-Visited a s0 rest t (raise x, s) e = record {
    rest = t.items;
    plan = refl;
    state = inr (refl, λ k. cc);
    still = λ k. cc;
  }

  visit_next-Visited :
      (items : List A) (t : Task A (Visit A S)) (s : S)
      → t.items ≡ items
      → Visited t (visit_next (recorded visit) items t s).0
  unfolding visit_next
  visit_next-Visited [] t s e = Visited-same t
  visit_next-Visited (a ∷ rest) t s e = after_visit-Visited a s rest t (visit a s) e

  advance_task-Visited :
      (t : Task A (Visit A S)) (s : S) → Visited t (advance_task (recorded visit) t s).0
  unfolding advance_task
  advance_task-Visited t s = visit_next-Visited t.items t s refl

  -- Whatever the visits do and in whatever order the coroutines take their turns, each coroutine visits
  -- all its items once and in order, unless it raises: then it visits them up to the one that raised.
  pub gather-IsComplete :
      (order : List ℕ) (ts : List (Task A (Visit A S))) (s : S)
      → All IsNew ts
      → Pairwise IsComplete ts (gather (recorded visit) order ts s).0
  gather-IsComplete order ts s n =
      All-ended ts (gather (recorded visit) order ts s).0 n
        (gather-HasEnded (recorded visit) order ts s)
        (gather-Follows (recorded visit) Visited Visited-same Visited-chain advance_task-Visited
          order ts s)
