-- ===== src/Componet/SpscQueue/Threads.antt =====
-- The two threads of a queue in any order (water/componet/lock_free_circular_queue_ss.h).
use native.Mathlib.Nat.{one-le-pow}
use casual_game.Prelude.{
  ℕ, ◌%◌, ◌^◌, ◌≤◌, ◌≡◌, ◌∙◌, refl, ap, List, [], ◌∷◌, ◌++◌, length, ltb, if◌then◌else◌, arith,
}
use casual_game.Componet.SpscQueue.{
  SpscQueue, Producer, Consumer, System, Turn, call_push, call_pop, produce, consume, create,
  push_step, pop_step, start_push, start_pop, turn, run,
}
use casual_game.Componet.SpscQueue.Around.{counter-mod, power-dvd}
use casual_game.Componet.SpscQueue.Invariant.{Inv, Sound}
use casual_game.Componet.SpscQueue.Pushing
use casual_game.Componet.SpscQueue.Popping

-- A fresh queue, with both threads at rest.
abbrev pub fresh : {T : Type 0} → T → ℕ → System T
fresh blank pow_arg = record {
  queue = create blank pow_arg;
  producer = Producer.rests;
  consumer = Consumer.rests;
  pushed = [];
  popped = [];
}

module _ {T : Type 0} (blank : T) where
  fresh-Sound : (pow_arg : ℕ) → Sound (fresh blank pow_arg)
  unfolding create Sound
  fresh-Sound pow_arg =
      let small : (if ltb pow_arg 24 then pow_arg else 24) ≤ 24 = ground arith in
      record {
        some_cells = one-le-pow _ 2 (omega arith);
        whole_circles = power-dvd _ small;
        waiting = [];
        in_order = refl;
        room = omega arith;
        some_there = omega arith;
        end_at = refl;
        begin_at = refl;
        marked = λ j h. ground arith;
        stored = λ j x h e. absurd (cc e);
        knows = tt;
        sees = tt;
      }

  module _ {q : SpscQueue T} {pushed popped : List T} where
    start_push-Inv :
        (x : T) (p : Producer T) (c : Consumer T)
        → Inv q p c pushed popped
        → Inv q (start_push x q p) c pushed popped
    start_push-Inv x Producer.rests c s =
        Pushing.goes_to Producer.rests (Producer.looks (q.end % q.max_size) 0 x) s refl (
          ap (λ e. e % q.max_size) s.end_at
          ∙ counter-mod q.max_size _ s.whole_circles
          ∙ ap (λ e. e % q.max_size) (omega arith))
    start_push-Inv x (Producer.looks pos tries y) c s = s
    start_push-Inv x (Producer.moves pos y) c s = s
    start_push-Inv x (Producer.writes pos y) c s = s
    start_push-Inv x (Producer.marks pos y) c s = s

    start_pop-Inv :
        (p : Producer T) (c : Consumer T)
        → Inv q p c pushed popped
        → Inv q p (start_pop q c) pushed popped
    start_pop-Inv p Consumer.rests s =
        Popping.goes_to Consumer.rests (Consumer.looks (q.begin % q.max_size) 0) s refl refl (
          ap (λ e. e % q.max_size) s.begin_at
          ∙ counter-mod q.max_size _ s.whole_circles
          ∙ ap (λ e. e % q.max_size) (omega arith))
    start_pop-Inv p (Consumer.looks pos tries) s = s
    start_pop-Inv p (Consumer.moves pos) s = s
    start_pop-Inv p (Consumer.reads pos) s = s
    start_pop-Inv p (Consumer.clears pos x) s = s
    start_pop-Inv p (Consumer.marks pos x) s = s

  turn-Sound : (t : Turn T) (s : System T) → Sound s → Sound (turn blank t s)
  unfolding turn Sound
  turn-Sound (call_push x) s v = start_push-Inv x s.producer s.consumer v
  turn-Sound call_pop s v = start_pop-Inv s.producer s.consumer v
  turn-Sound produce s v = Pushing.push_step-Inv s.producer blank v
  turn-Sound consume s v = Popping.pop_step-Inv s.consumer blank v

  pub run-Sound : (ts : List (Turn T)) (s : System T) → Sound s → Sound (run blank ts s)
  unfolding run
  run-Sound [] s v = v
  run-Sound (t ∷ ts) s v = run-Sound ts (turn blank t s) (turn-Sound t s v)

  turn-max_size : (t : Turn T) (s : System T) → (turn blank t s).queue.max_size ≡ s.queue.max_size
  unfolding turn push_step pop_step
  turn-max_size (call_push x) s = refl
  turn-max_size call_pop s = refl
  turn-max_size produce s = pushes s.producer
    where
      pushes : (p : Producer T) → (push_step blank p s.queue s.pushed).0.max_size ≡ s.queue.max_size
      pushes Producer.rests = refl
      pushes (Producer.looks pos tries x) = ground arith
      pushes (Producer.moves pos x) = refl
      pushes (Producer.writes pos x) = refl
      pushes (Producer.marks pos x) = refl
  turn-max_size consume s = pops s.consumer
    where
      pops : (c : Consumer T) → (pop_step blank c s.queue s.popped).0.max_size ≡ s.queue.max_size
      pops Consumer.rests = refl
      pops (Consumer.looks pos tries) = ground arith
      pops (Consumer.moves pos) = refl
      pops (Consumer.reads pos) = refl
      pops (Consumer.clears pos x) = refl
      pops (Consumer.marks pos x) = refl

  run-max_size :
      (ts : List (Turn T)) (s : System T) → (run blank ts s).queue.max_size ≡ s.queue.max_size
  unfolding run
  run-max_size [] s = refl
  run-max_size (t ∷ ts) s = run-max_size ts (turn blank t s) ∙ turn-max_size t s

  -- However the steps of the two threads follow on one another, from a fresh queue on, what has been
  -- taken out is what was put in, in its order, up to items that wait; these are never more than the
  -- queue has cells.
  pub run-in_order :
      (pow_arg : ℕ) (ts : List (Turn T))
      → let s = run blank ts (fresh blank pow_arg) in
        (waiting : List T) × (s.pushed ≡ s.popped ++ waiting)
        × (length waiting ≤ 2 ^ (if ltb pow_arg 24 then pow_arg else 24))
  unfolding Sound create
  run-in_order pow_arg ts =
      let v = run-Sound ts (fresh blank pow_arg) (fresh-Sound pow_arg) in
      let size = run-max_size ts (fresh blank pow_arg) in
      (v.waiting, v.in_order, omega (arith, v.room, size))
