-- ===== src/Orchestrator/Gather.antt =====
-- services/orchestrator/src/orchestrator/main.py: `asyncio.gather(…, return_exceptions=True)` over one
-- coroutine for each chassis. A coroutine visits its items in order; a turn is one visit. The event
-- loop may interleave the coroutines in any order, which is the list of turns.
pub mod Ends
pub mod Visits
pub mod Same
use battery_lab_sim.Prelude.{ℕ, zero, suc, Option, none, some, List, [], ◌∷◌, ◌++◌, map}
use battery_lab_sim.Orchestrator.State.{Exn, Result, ok, raise}

-- The coroutine of one chassis: what it has still to visit, what it collected, and whether it raised.
pub record Task (A B : Type 0) : Type 0 where
  pub chassis : ℕ
  pub items : List A
  pub results : List B
  pub raised : Option Exn

unfoldable pub tasks_of : {A B : Type 0} → List (ℕ × List A) → List (Task A B)
tasks_of groups =
    map (λ g. record { chassis = g.0; items = g.1; results = []; raised = none }) groups

module _ {S A B : Type 0} where
  -- After a visit: an exception ends the coroutine with what is left of its items.
  abbrev pub after_visit : List A → Task A B → Result (Option B) × S → Task A B × S
  after_visit rest t (ok none, s) = (record t { items = rest }, s)
  after_visit rest t (ok (some b), s) =
      (record t { items = rest; results = t.results ++ b ∷ [] }, s)
  after_visit rest t (raise e, s) = (record t { items = []; raised = some e }, s)

module _ {S A B : Type 0} (visit : A → S → Result (Option B) × S) where
  unfoldable pub visit_next : List A → Task A B → S → Task A B × S
  visit_next [] t s = (t, s)
  visit_next (a ∷ rest) t s = after_visit rest t (visit a s)

  -- The next item of a coroutine, if it has one.
  unfoldable pub advance_task : Task A B → S → Task A B × S
  unfolding visit_next
  advance_task t s = visit_next t.items t s

  -- A turn of the coroutine at a place.
  unfoldable pub take_turn : ℕ → List (Task A B) → S → List (Task A B) × S
  unfolding advance_task
  take_turn i [] s = ([], s)
  take_turn zero (t ∷ ts) s = let r = advance_task t s in (r.0 ∷ ts, r.1)
  take_turn (suc i) (t ∷ ts) s = let r = take_turn i ts s in (t ∷ r.0, r.1)

  unfoldable pub turns : List ℕ → List (Task A B) → S → List (Task A B) × S
  unfolding take_turn
  turns [] ts s = (ts, s)
  turns (i ∷ is) ts s = let r = take_turn i ts s in turns is r.0 r.1

  -- At most one visit for each item of a list.
  unfoldable pub visit_rest : List A → Task A B → S → Task A B × S
  unfolding advance_task
  visit_rest [] t s = (t, s)
  visit_rest (a ∷ as') t s = let r = advance_task t s in visit_rest as' r.0 r.1

  -- The gather waits until every coroutine has ended.
  unfoldable pub await_all : List (Task A B) → S → List (Task A B) × S
  unfolding visit_rest
  await_all [] s = ([], s)
  await_all (t ∷ ts) s =
      let r = visit_rest t.items t s in let rest = await_all ts r.1 in (r.0 ∷ rest.0, rest.1)

  unfoldable pub gather : List ℕ → List (Task A B) → S → List (Task A B) × S
  unfolding turns await_all
  gather order ts s = let r = turns order ts s in await_all r.0 r.1
