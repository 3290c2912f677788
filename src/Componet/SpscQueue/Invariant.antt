-- ===== src/Componet/SpscQueue/Invariant.antt =====
-- What holds of the queue and its two threads at any time (water/componet/lock_free_circular_queue_ss.h).
use Prim.Native.Nat.{◌∣◌}
use casual_game.Prelude.{ℕ, ◌+◌, ◌%◌, ◌^◌, ◌≤◌, ◌<◌, ◌≡◌, some, List, ◌++◌, length, get_elem?, ltb}
use casual_game.Componet.SpscQueue.{SpscQueue, Producer, Consumer, System}

module _ {T : Type 0} where
  -- Whether the producer has moved the end and not yet marked its cell.
  abbrev pub putting : Producer T → ℕ
  putting (Producer.writes pos x) = 1
  putting (Producer.marks pos x) = 1
  putting _ = 0

  -- Whether the consumer has moved the start and not yet marked its cell; and whether it has cleared it.
  abbrev pub taking : Consumer T → ℕ
  taking (Consumer.reads pos) = 1
  taking (Consumer.clears pos x) = 1
  taking (Consumer.marks pos x) = 1
  taking _ = 0

  abbrev pub cleared : Consumer T → ℕ
  cleared (Consumer.marks pos x) = 1
  cleared _ = 0

  -- What a thread knows, with `at` the place of the next item for it.
  abbrev pub Knows : Producer T → SpscQueue T → ℕ → List T → Type 0
  Knows Producer.rests q at waiting = Unit
  Knows (Producer.looks pos tries x) q at waiting = pos ≡ at
  Knows (Producer.moves pos x) q at waiting = (pos ≡ at) × (length waiting < q.max_size)
  Knows (Producer.writes pos x) q at waiting = pos ≡ at
  Knows (Producer.marks pos x) q at waiting = (pos ≡ at) × (q.item pos ≡ x)

  abbrev pub Sees : Consumer T → ℕ → List T → Type 0
  Sees Consumer.rests at waiting = Unit
  Sees (Consumer.looks pos tries) at waiting = pos ≡ at
  Sees (Consumer.moves pos) at waiting = (pos ≡ at) × (0 < length waiting)
  Sees (Consumer.reads pos) at waiting = pos ≡ at
  Sees (Consumer.clears pos x) at waiting = (pos ≡ at) × (get_elem? waiting 0 ≡ some x)
  Sees (Consumer.marks pos x) at waiting = (pos ≡ at) × (get_elem? waiting 0 ≡ some x)

  -- `waiting` are the items that are in the cells, from the one that was put in first.
  pub record Inv (q : SpscQueue T) (p : Producer T) (c : Consumer T) (pushed popped : List T)
      : Type 0 where
    pub some_cells : 0 < q.max_size
    pub whole_circles : q.max_size ∣ 2 ^ 64
    pub waiting : List T
    pub in_order : pushed ≡ popped ++ waiting
    pub room : length waiting + putting p ≤ q.max_size
    pub some_there : taking c ≤ length waiting
    pub end_at : q.end ≡ (length popped + length waiting + putting p) % 2 ^ 64
    pub begin_at : q.begin ≡ (length popped + taking c) % 2 ^ 64
    pub marked :
        (j : ℕ)
        → j < q.max_size
        → q.full ((length popped + j) % q.max_size) ≡ ltb j (length waiting)
    pub stored :
        (j : ℕ) (x : T)
        → cleared c ≤ j
        → get_elem? waiting j ≡ some x
        → q.item ((length popped + j) % q.max_size) ≡ x
    pub knows : Knows p q ((length popped + length waiting) % q.max_size) waiting
    pub sees : Sees c (length popped % q.max_size) waiting

  unfoldable pub Sound : System T → Type 0
  Sound s = Inv s.queue s.producer s.consumer s.pushed s.popped
