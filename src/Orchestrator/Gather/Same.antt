-- ===== src/Orchestrator/Gather/Same.antt =====
-- To record the visits of a gather changes nothing else.
use battery_lab_sim.Prelude.{ℕ, zero, suc, ◌≡◌, refl, subst, Option, none, some, List, [], ◌∷◌}
use battery_lab_sim.Orchestrator.State.{Result, ok, raise}
use battery_lab_sim.Orchestrator.Gather.{
  Task, tasks_of, after_visit, visit_next, advance_task, take_turn, turns, visit_rest, await_all,
  gather,
}
use battery_lab_sim.Orchestrator.Gather.Visits.{Visit, as_result, recorded}

module _ {A B C : Type 0} where
  abbrev Like : Task A C → Task A B → Type 0
  Like t u = (t.items ≡ u.items) × (t.raised ≡ u.raised)

  abbrev pub AllLike : List (Task A C) → List (Task A B) → Type 0
  AllLike [] [] = Unit
  AllLike [] (u ∷ us) = ⊥
  AllLike (t ∷ ts) [] = ⊥
  AllLike (t ∷ ts) (u ∷ us) = Like t u × AllLike ts us

pub tasks_of-AllLike :
    {A : Type 0} (B C : Type 0) (groups : List (ℕ × List A))
    → AllLike {B = B} {C = C} (tasks_of groups) (tasks_of groups)
unfolding tasks_of
tasks_of-AllLike B C [] = tt
tasks_of-AllLike B C (g ∷ groups) = ((refl, refl), tasks_of-AllLike B C groups)

module _ {S A B : Type 0} (visit : A → S → Result (Option B) × S) where
  -- Two runs that have come to like coroutines and the same state.
  abbrev Alike : Task A (Visit A S) × S → Task A B × S → Type 0
  Alike p q = Like p.0 q.0 × (p.1 ≡ q.1)

  abbrev pub Agree : List (Task A (Visit A S)) × S → List (Task A B) × S → Type 0
  Agree p q = AllLike p.0 q.0 × (p.1 ≡ q.1)

  after_visit-Alike :
      (a : A) (s0 : S) (rest : List A) (t : Task A (Visit A S)) (u : Task A B)
      (r : Result (Option B) × S)
      → t.raised ≡ u.raised
      → Alike (after_visit rest t (as_result a s0 r)) (after_visit rest u r)
  after_visit-Alike a s0 rest t u (ok none, s) e = ((refl, e), refl)
  after_visit-Alike a s0 rest t u (ok (some b), s) e = ((refl, e), refl)
  after_visit-Alike a s0 rest t u (raise x, s) e = ((refl, refl), refl)

  visit_next-Alike :
      (items : List A) (t : Task A (Visit A S)) (u : Task A B) (s : S)
      → Like t u
      → Alike (visit_next (recorded visit) items t s) (visit_next visit items u s)
  unfolding visit_next
  visit_next-Alike [] t u s h = (h, refl)
  visit_next-Alike (a ∷ rest) t u s h = after_visit-Alike a s rest t u (visit a s) h.1

  advance_task-Alike :
      (t : Task A (Visit A S)) (u : Task A B) (s s' : S)
      → Like t u
      → s ≡ s'
      → Alike (advance_task (recorded visit) t s) (advance_task visit u s')
  unfolding advance_task
  advance_task-Alike t u s s' h e =
      subst (λ (z : S). Alike (advance_task (recorded visit) t s) (advance_task visit u z)) e
        (subst (λ l. Alike (visit_next (recorded visit) t.items t s) (visit_next visit l u s)) h.0
          (visit_next-Alike t.items t u s h))

  take_turn-Agree :
      (i : ℕ) (ts : List (Task A (Visit A S))) (us : List (Task A B)) (s s' : S)
      → AllLike ts us
      → s ≡ s'
      → Agree (take_turn (recorded visit) i ts s) (take_turn visit i us s')
  unfolding take_turn
  take_turn-Agree i [] [] s s' h e = (tt, e)
  take_turn-Agree i [] (u ∷ us) s s' h e = absurd h
  take_turn-Agree i (t ∷ ts) [] s s' h e = absurd h
  take_turn-Agree zero (t ∷ ts) (u ∷ us) s s' h e =
      let r = advance_task-Alike t u s s' h.0 e in ((r.0, h.1), r.1)
  take_turn-Agree (suc i) (t ∷ ts) (u ∷ us) s s' h e =
      let r = take_turn-Agree i ts us s s' h.1 e in ((h.0, r.0), r.1)

  turns-Agree :
      (is : List ℕ) (ts : List (Task A (Visit A S))) (us : List (Task A B)) (s s' : S)
      → AllLike ts us
      → s ≡ s'
      → Agree (turns (recorded visit) is ts s) (turns visit is us s')
  unfolding turns
  turns-Agree [] ts us s s' h e = (h, e)
  turns-Agree (i ∷ is) ts us s s' h e =
      let r = take_turn-Agree i ts us s s' h e in turns-Agree is _ _ _ _ r.0 r.1

  visit_rest-Alike :
      (as' : List A) (t : Task A (Visit A S)) (u : Task A B) (s s' : S)
      → Like t u
      → s ≡ s'
      → Alike (visit_rest (recorded visit) as' t s) (visit_rest visit as' u s')
  unfolding visit_rest
  visit_rest-Alike [] t u s s' h e = (h, e)
  visit_rest-Alike (a ∷ as') t u s s' h e =
      let r = advance_task-Alike t u s s' h e in visit_rest-Alike as' _ _ _ _ r.0 r.1

  visit_rest-Alike_own :
      (t : Task A (Visit A S)) (u : Task A B) (s s' : S)
      → Like t u
      → s ≡ s'
      → Alike (visit_rest (recorded visit) t.items t s) (visit_rest visit u.items u s')
  visit_rest-Alike_own t u s s' h e =
      subst (λ l. Alike (visit_rest (recorded visit) t.items t s) (visit_rest visit l u s')) h.0
        (visit_rest-Alike t.items t u s s' h e)

  await_all-Agree :
      (ts : List (Task A (Visit A S))) (us : List (Task A B)) (s s' : S)
      → AllLike ts us
      → s ≡ s'
      → Agree (await_all (recorded visit) ts s) (await_all visit us s')
  unfolding await_all
  await_all-Agree [] [] s s' h e = (tt, e)
  await_all-Agree [] (u ∷ us) s s' h e = absurd h
  await_all-Agree (t ∷ ts) [] s s' h e = absurd h
  await_all-Agree (t ∷ ts) (u ∷ us) s s' h e =
      let d = visit_rest-Alike_own t u s s' h.0 e in
      let r = await_all-Agree ts us _ _ h.1 d.1 in ((d.0, r.0), r.1)

  -- The recorded gather and the gather itself come to the same state, and the same coroutines raise.
  pub gather-Agree :
      (order : List ℕ) (ts : List (Task A (Visit A S))) (us : List (Task A B)) (s : S)
      → AllLike ts us
      → Agree (gather (recorded visit) order ts s) (gather visit order us s)
  unfolding gather
  gather-Agree order ts us s h =
      let r = turns-Agree order ts us s s h refl in await_all-Agree _ _ _ _ r.0 r.1
