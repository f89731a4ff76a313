-- ===== src/Orchestrator/Gather/Ends.antt =====
-- What holds of every gather, in every order of the turns.
use battery_lab_sim.Prelude.{
  ℕ, zero, suc, ◌≡◌, refl, ◌⊎◌, inl, inr, Option, none, some, List, [], ◌∷◌, All,
}
use battery_lab_sim.Orchestrator.State.{Result, ok, raise}
use battery_lab_sim.Orchestrator.Gather.{
  Task, after_visit, visit_next, advance_task, take_turn, turns, visit_rest, await_all, gather,
}

-- A predicate on the coroutines and the state that each visit keeps is kept by the gather.
module _ {S A B : Type 0} (visit : A → S → Result (Option B) × S) (T : Task A B → Type 0)
    (I : S → Type 0)
    (keep : (t : Task A B) (s : S)
      → T t
      → I s
      → T (advance_task visit t s).0 × I (advance_task visit t s).1) where
  abbrev Both : List (Task A B) × S → Type 0
  Both p = All T p.0 × I p.1

  take_turn-Both :
      (i : ℕ) (ts : List (Task A B)) (s : S) → All T ts → I s → Both (take_turn visit i ts s)
  unfolding take_turn
  take_turn-Both i [] s h k = (h, k)
  take_turn-Both zero (t ∷ ts) s h k = let r = keep t s h.0 k in ((r.0, h.1), r.1)
  take_turn-Both (suc i) (t ∷ ts) s h k = let r = take_turn-Both i ts s h.1 k in ((h.0, r.0), r.1)

  turns-Both :
      (is : List ℕ) (ts : List (Task A B)) (s : S) → All T ts → I s → Both (turns visit is ts s)
  unfolding turns
  turns-Both [] ts s h k = (h, k)
  turns-Both (i ∷ is) ts s h k =
      let r = take_turn-Both i ts s h k in
      turns-Both is (take_turn visit i ts s).0 (take_turn visit i ts s).1 r.0 r.1

  visit_rest-Both :
      (as' : List A) (t : Task A B) (s : S)
      → T t
      → I s
      → T (visit_rest visit as' t s).0 × I (visit_rest visit as' t s).1
  unfolding visit_rest
  visit_rest-Both [] t s h k = (h, k)
  visit_rest-Both (a ∷ as') t s h k =
      let r = keep t s h k in
      visit_rest-Both as' (advance_task visit t s).0 (advance_task visit t s).1 r.0 r.1

  await_all-Both : (ts : List (Task A B)) (s : S) → All T ts → I s → Both (await_all visit ts s)
  unfolding await_all
  await_all-Both [] s h k = (h, k)
  await_all-Both (t ∷ ts) s h k =
      let d = visit_rest-Both t.items t s h.0 k in
      let r = await_all-Both ts (visit_rest visit t.items t s).1 h.1 d.1 in ((d.0, r.0), r.1)

  pub gather-Both :
      (order : List ℕ) (ts : List (Task A B)) (s : S)
      → All T ts
      → I s
      → Both (gather visit order ts s)
  unfolding gather
  gather-Both order ts s h k =
      let r = turns-Both order ts s h k in
      await_all-Both (turns visit order ts s).0 (turns visit order ts s).1 r.0 r.1

pub All-trivial : {T : Type 0} (ts : List T) → All (λ t. Unit {0}) ts
All-trivial [] = tt
All-trivial (t ∷ ts) = (tt, All-trivial ts)

pub after_visit-state :
    {S A B : Type 0} (I : S → Type 0) (rest : List A) (t : Task A B) (r : Result (Option B) × S)
    → I r.1
    → I (after_visit rest t r).1
after_visit-state I rest t (ok none, s) h = h
after_visit-state I rest t (ok (some b), s) h = h
after_visit-state I rest t (raise e, s) h = h

abbrev pub HasEnded : {A B : Type 0} → Task A B → Type 0
HasEnded t = t.items ≡ []

module _ {S A B : Type 0} (visit : A → S → Result (Option B) × S) where
  -- A turn takes an item, or ends the coroutine.
  abbrev Shrinks : List A → Task A B → Type 0
  Shrinks rest t = (t.items ≡ rest) ⊎ (t.items ≡ [])

  after_visit-Shrinks :
      (rest : List A) (t : Task A B) (r : Result (Option B) × S)
      → Shrinks rest (after_visit rest t r).0
  after_visit-Shrinks rest t (ok none, s) = inl refl
  after_visit-Shrinks rest t (ok (some b), s) = inl refl
  after_visit-Shrinks rest t (raise e, s) = inr refl

  advance_task-Shrinks :
      (a : A) (rest : List A) (t : Task A B) (s : S)
      → Shrinks (a ∷ rest) t
      → Shrinks rest (advance_task visit t s).0
  unfolding advance_task visit_next
  advance_task-Shrinks a rest t s (inl e) = rw e (after_visit-Shrinks rest t (visit a s))
  advance_task-Shrinks a rest t s (inr e) = rw e (inr refl)

  visit_rest-HasEnded :
      (as' : List A) (t : Task A B) (s : S) → Shrinks as' t → HasEnded (visit_rest visit as' t s).0
  unfolding visit_rest
  visit_rest-HasEnded [] t s (inl e) = e
  visit_rest-HasEnded [] t s (inr e) = e
  visit_rest-HasEnded (a ∷ as') t s h =
      visit_rest-HasEnded as' (advance_task visit t s).0 (advance_task visit t s).1
        (advance_task-Shrinks a as' t s h)

  await_all-HasEnded : (ts : List (Task A B)) (s : S) → All HasEnded (await_all visit ts s).0
  unfolding await_all
  await_all-HasEnded [] s = tt
  await_all-HasEnded (t ∷ ts) s = (
    visit_rest-HasEnded t.items t s (inl refl),
    await_all-HasEnded ts (visit_rest visit t.items t s).1,
  )

  -- Whatever the visits do, and in whatever order the coroutines take their turns, every coroutine
  -- has ended when the gather returns.
  pub gather-HasEnded :
      (order : List ℕ) (ts : List (Task A B)) (s : S) → All HasEnded (gather visit order ts s).0
  unfolding gather
  gather-HasEnded order ts s =
      await_all-HasEnded (turns visit order ts s).0 (turns visit order ts s).1
