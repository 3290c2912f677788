-- ===== src/Componet/CircularQueue/Runs.antt =====
-- A client of a circular queue (water/componet/circular_queue.h).
use casual_game.Prelude.{
  ℕ, ◌≡◌, ◌∙◌, refl, ap, Bool, Option, List, [], ◌∷◌, length, length-replicate,
}
use casual_game.Componet.CircularQueue.{CircularQueue, create, top, push, pop, traverse}
use casual_game.Componet.CircularQueue.Refinement.{
  items, IsValid, push_items, pop_items, top_items, visited, create-IsValid, push_refines,
  push-IsValid, pop_refines, pop-IsValid, top_refines, traverse_refines,
}

-- The calls of a client, and what they answer.
pub data Op (T : Type 0) : Type 0 where
  put : T → Op T
  drop_first look : Op T
  walk : (T → Bool) → Op T

pub data Reply (T : Type 0) : Type 0 where
  accepted : Bool → Reply T
  done : Reply T
  first : Option T → Reply T
  given : List T → Reply T

module _ {T : Type 0} (blank : T) where
  unfoldable pub run : CircularQueue T → List (Op T) → List (Reply T)
  run q [] = []
  run q (put x ∷ ops) = accepted (push blank x q).1 ∷ run (push blank x q).0 ops
  run q (drop_first ∷ ops) = done ∷ run (pop blank q) ops
  run q (look ∷ ops) = first (top blank q) ∷ run q ops
  run q (walk callback ∷ ops) = given (traverse blank callback q) ∷ run q ops

  -- The same calls on a list of at most `limit` items.
  unfoldable pub run_items : ℕ → List T → List (Op T) → List (Reply T)
  run_items limit xs [] = []
  run_items limit xs (put x ∷ ops) =
      accepted (push_items blank limit x xs).1 ∷ run_items limit (push_items blank limit x xs).0 ops
  run_items limit xs (drop_first ∷ ops) = done ∷ run_items limit (pop_items blank xs) ops
  run_items limit xs (look ∷ ops) = first (top_items blank xs) ∷ run_items limit xs ops
  run_items limit xs (walk callback ∷ ops) =
      given (visited blank callback xs) ∷ run_items limit xs ops

  run_refines :
      (ops : List (Op T)) (q : CircularQueue T) (limit : ℕ)
      → IsValid blank q
      → length q.cells ≡ limit
      → run q ops ≡ run_items limit (items blank q) ops
  unfolding run run_items
  run_refines [] q limit v e = refl
  run_refines (put x ∷ ops) q limit v e =
      let (held, flag, size) = push_refines blank q v x in
      let ih = run_refines ops (push blank x q).0 limit (push-IsValid blank q v x) (size ∙ e) in
      rw (← e, ← flag, ← held) (ap (λ l. accepted (push blank x q).1 ∷ l) ih)
  run_refines (drop_first ∷ ops) q limit v e =
      let (held, size) = pop_refines blank q v in
      rw (← held) (
        ap (λ l. done ∷ l) (run_refines ops (pop blank q) limit (pop-IsValid blank q v) (size ∙ e)))
  run_refines (look ∷ ops) q limit v e =
      rw (top_refines blank q v)
        (ap (λ l. first (top_items blank (items blank q)) ∷ l) (run_refines ops q limit v e))
  run_refines (walk callback ∷ ops) q limit v e =
      rw (traverse_refines blank q v callback)
        (ap (λ l. given (visited blank callback (items blank q)) ∷ l) (run_refines ops q limit v e))

  -- No sequence of calls tells a fresh circular queue of `limit` cells from an empty list that takes at
  -- most `limit` items at its end and gives them up at its front.
  pub create_refines :
      (limit : ℕ) (ops : List (Op T)) → run (create blank limit) ops ≡ run_items limit [] ops
  unfolding create
  create_refines limit ops =
      run_refines ops (create blank limit) limit (create-IsValid blank limit)
        (length-replicate limit blank)
