-- ===== src/Componet/SpscQueue.antt =====
-- `LockFreeCircularQueueSPSC` (water/componet/lock_free_circular_queue_ss.h): a queue that one thread
-- puts into and one takes out of. A step is one access to what the threads share, with what a thread
-- does alone around it. The vector of cells is a function from the indices; `& (maxSize - 1)` is the
-- remainder by a power of two; `uint_fast32_t` has 64 bits.
pub mod Around
pub mod Invariant
pub mod Pushing
pub mod Popping
pub mod Threads
pub mod Returns
use casual_game.Prelude.{
  ℕ, zero, suc, ◌+◌, ◌%◌, ◌^◌, Bool, true, false, List, [], ◌∷◌, ◌++◌, ltb, ◌==◌, if◌then◌else◌,
}

module _ {A : Type 0} where
  abbrev pub update : (ℕ → A) → ℕ → A → ℕ → A
  update f i a j = if j == i then a else f j

-- The status of a cell is whether it is full.
pub record SpscQueue (T : Type 0) : Type 0 where
  pub begin : ℕ
  pub end : ℕ
  pub max_size : ℕ
  pub full : ℕ → Bool
  pub item : ℕ → T

-- Where the thread is in `push`: it has looked at the status of its cell some times, moves the end,
-- writes the item, or marks the cell.
pub data Producer (T : Type 0) : Type 0 where
  rests : Producer T
  looks : ℕ → ℕ → T → Producer T
  moves writes marks : ℕ → T → Producer T

-- Where the thread is in `pop`.
pub data Consumer (T : Type 0) : Type 0 where
  rests : Consumer T
  looks : ℕ → ℕ → Consumer T
  moves reads : ℕ → Consumer T
  clears marks : ℕ → T → Consumer T

abbrev pub real_pos : {T : Type 0} → ℕ → SpscQueue T → ℕ
real_pos pos q = pos % q.max_size

module _ {T : Type 0} (blank : T) where
  unfoldable pub create : ℕ → SpscQueue T
  create pow_arg = record {
    begin = 0;
    end = 0;
    max_size = 2 ^ (if ltb pow_arg 24 then pow_arg else 24);
    full = λ i. false;
    item = λ i. blank;
  }

  -- A step of `push`; the items put in so far end with the last.
  unfoldable pub push_step : Producer T → SpscQueue T → List T → SpscQueue T × Producer T × List T
  push_step Producer.rests q pushed = (q, Producer.rests, pushed)
  push_step (Producer.looks pos tries x) q pushed =
      if tries + 1 == 3
      then (q, Producer.rests, pushed)
      else if q.full pos
      then (q, Producer.looks pos (tries + 1) x, pushed)
      else (q, Producer.moves pos x, pushed)
  push_step (Producer.moves pos x) q pushed =
      (record q { end = (q.end + 1) % 2 ^ 64 }, Producer.writes pos x, pushed)
  push_step (Producer.writes pos x) q pushed =
      (record q { item = update q.item pos x }, Producer.marks pos x, pushed)
  push_step (Producer.marks pos x) q pushed =
      (record q { full = update q.full pos true }, Producer.rests, pushed ++ x ∷ [])

  -- A step of `pop`.
  unfoldable pub pop_step : Consumer T → SpscQueue T → List T → SpscQueue T × Consumer T × List T
  pop_step Consumer.rests q popped = (q, Consumer.rests, popped)
  pop_step (Consumer.looks pos tries) q popped =
      if tries == 3
      then (q, Consumer.rests, popped)
      else if q.full pos
      then (q, Consumer.moves pos, popped)
      else (q, Consumer.looks pos (tries + 1), popped)
  pop_step (Consumer.moves pos) q popped =
      (record q { begin = (q.begin + 1) % 2 ^ 64 }, Consumer.reads pos, popped)
  pop_step (Consumer.reads pos) q popped = (q, Consumer.clears pos (q.item pos), popped)
  pop_step (Consumer.clears pos x) q popped =
      (record q { item = update q.item pos blank }, Consumer.marks pos x, popped)
  pop_step (Consumer.marks pos x) q popped =
      (record q { full = update q.full pos false }, Consumer.rests, popped ++ x ∷ [])

-- The queue, the two threads, and what has been put in and taken out.
pub record System (T : Type 0) : Type 0 where
  pub queue : SpscQueue T
  pub producer : Producer T
  pub consumer : Consumer T
  pub pushed : List T
  pub popped : List T

-- Who goes on: a thread calls `push` or `pop`, where it rests, or makes a step.
pub data Turn (T : Type 0) : Type 0 where
  call_push : T → Turn T
  call_pop produce consume : Turn T

module _ {T : Type 0} where
  abbrev pub start_push : T → SpscQueue T → Producer T → Producer T
  start_push x q Producer.rests = Producer.looks (real_pos q.end q) 0 x
  start_push x q p = p

  abbrev pub start_pop : SpscQueue T → Consumer T → Consumer T
  start_pop q Consumer.rests = Consumer.looks (real_pos q.begin q) 0
  start_pop q c = c

module _ {T : Type 0} (blank : T) where
  unfoldable pub turn : Turn T → System T → System T
  turn (call_push x) s = record s { producer = start_push x s.queue s.producer }
  turn call_pop s = record s { consumer = start_pop s.queue s.consumer }
  turn produce s =
      let (q, p, pushed) = push_step blank s.producer s.queue s.pushed in
      record s { queue = q; producer = p; pushed = pushed }
  turn consume s =
      let (q, c, popped) = pop_step blank s.consumer s.queue s.popped in
      record s { queue = q; consumer = c; popped = popped }

  unfoldable pub run : List (Turn T) → System T → System T
  run [] s = s
  run (t ∷ ts) s = run ts (turn t s)
