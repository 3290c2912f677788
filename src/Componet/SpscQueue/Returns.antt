-- ===== src/Componet/SpscQueue/Returns.antt =====
-- A call of `push` or `pop` ends after a few steps of its thread, whatever the other thread does
-- (water/componet/lock_free_circular_queue_ss.h).
use casual_game.Prelude.{
  ℕ, ◌+◌, ◌-◌, ◌%◌, ◌≤◌, ◌≡◌, refl, ap, inl, inr, ◌⊎◌, Bool, true, false, Bool-cases, List, [], ◌∷◌,
  ◌++◌, ◌==◌, if◌then◌else◌, arith,
}
use casual_game.Componet.SpscQueue.{
  Producer, Consumer, System, Turn, call_push, call_pop, produce, consume, push_step, pop_step,
  start_push, start_pop, turn, run,
}

module _ {T : Type 0} where
  -- How many steps of its thread a call takes yet at most.
  abbrev pub push_left : Producer T → ℕ
  push_left Producer.rests = 0
  push_left (Producer.looks pos tries x) = 5 - tries
  push_left (Producer.moves pos x) = 3
  push_left (Producer.writes pos x) = 2
  push_left (Producer.marks pos x) = 1

  abbrev pub pop_left : Consumer T → ℕ
  pop_left Consumer.rests = 0
  pop_left (Consumer.looks pos tries) = 7 - tries
  pop_left (Consumer.moves pos) = 4
  pop_left (Consumer.reads pos) = 3
  pop_left (Consumer.clears pos x) = 2
  pop_left (Consumer.marks pos x) = 1

  -- A call looks three times at most.
  abbrev FewPushLooks : Producer T → Type 0
  FewPushLooks (Producer.looks pos tries x) = tries ≤ 2
  FewPushLooks p = Unit

  abbrev FewPopLooks : Consumer T → Type 0
  FewPopLooks (Consumer.looks pos tries) = tries ≤ 3
  FewPopLooks c = Unit

  abbrev pub is_produce : Turn T → Bool
  is_produce produce = true
  is_produce _ = false

  abbrev pub is_consume : Turn T → Bool
  is_consume consume = true
  is_consume _ = false

  abbrev pub count_turns : (Turn T → Bool) → List (Turn T) → ℕ
  count_turns own [] = 0
  count_turns own (t ∷ ts) = (if own t then 1 else 0) + count_turns own ts

module _ {T : Type 0} (blank : T) where
  -- A number that every turn of a thread brings down, until it is 0, and no other turn brings up.
  abbrev Falls : (System T → ℕ) → (Turn T → Bool) → (System T → Type 0) → Type 0
  Falls left own Few =
      (t : Turn T) (s : System T)
      → Few s
      → Few (turn blank t s)
        × ((left s ≡ 0) ⊎ (left (turn blank t s) + (if own t then 1 else 0) ≤ left s))

  -- Enough turns of the thread meet a time at which the number is 0.
  falls_to_zero :
      (left : System T → ℕ) (own : Turn T → Bool) (Few : System T → Type 0)
      → Falls left own Few
      → (ts : List (Turn T)) (s : System T) → Few s
      → left s ≤ count_turns own ts
      → (before : List (Turn T)) × (after : List (Turn T)) × (ts ≡ before ++ after)
        × (left (run blank before s) ≡ 0)
        × Few (run blank before s)
  unfolding run
  falls_to_zero left own Few law [] s few enough = ([], [], refl, omega (arith, enough), few)
  falls_to_zero left own Few law (t ∷ ts) s few enough =
      let (few', fallen) = law t s few in
      elim fallen [
        | inl z ↦ ([], t ∷ ts, refl, z, few)
        | inr less ↦
            let (before, after, split, ended, few'') =
              falls_to_zero left own Few law ts (turn blank t s) few'
                (omega (arith, less, enough)) in
            (t ∷ before, after, ap (◌∷◌ t) split, ended, few'')
      ]

  push-Falls : Falls (λ s. push_left s.producer) is_produce (λ s. FewPushLooks s.producer)
  unfolding turn push_step
  push-Falls (call_push x) s few = starts s.producer few
    where
      starts :
          (p : Producer T)
          → FewPushLooks p
          → FewPushLooks (start_push x s.queue p)
            × ((push_left p ≡ 0) ⊎ (push_left (start_push x s.queue p) + 0 ≤ push_left p))
      starts Producer.rests few = (omega arith, inl refl)
      starts (Producer.looks pos tries y) few = (few, inr (omega arith))
      starts (Producer.moves pos y) few = (few, inr (omega arith))
      starts (Producer.writes pos y) few = (few, inr (omega arith))
      starts (Producer.marks pos y) few = (few, inr (omega arith))
  push-Falls call_pop s few = (few, inr (omega arith))
  push-Falls consume s few = (few, inr (omega arith))
  push-Falls produce s few = goes s.producer few
    where
      goes :
          (p : Producer T)
          → FewPushLooks p
          → FewPushLooks (push_step blank p s.queue s.pushed).1
            × ((push_left p ≡ 0)
                ⊎ (push_left (push_step blank p s.queue s.pushed).1 + 1 ≤ push_left p))
      goes Producer.rests few = (tt, inl refl)
      goes (Producer.looks pos tries x) few = elim (Bool-cases (tries + 1 == 3)) [
        | inl y ↦ rw y (tt, inr (omega (arith, few)))
        | inr n ↦
            let more : tries + 1 ≤ 2 = ground (arith, n, few) in
            elim (Bool-cases (s.queue.full pos)) [
              | inl f ↦ rw (n, f) (more, inr (omega (arith, more)))
              | inr f ↦ rw (n, f) (tt, inr (omega (arith, more)))
            ]
      ]
      goes (Producer.moves pos x) few = (tt, inr (omega arith))
      goes (Producer.writes pos x) few = (tt, inr (omega arith))
      goes (Producer.marks pos x) few = (tt, inr (omega arith))

  pop-Falls : Falls (λ s. pop_left s.consumer) is_consume (λ s. FewPopLooks s.consumer)
  unfolding turn pop_step
  pop-Falls (call_push x) s few = (few, inr (omega arith))
  pop-Falls call_pop s few = starts s.consumer few
    where
      starts :
          (c : Consumer T)
          → FewPopLooks c
          → FewPopLooks (start_pop s.queue c)
            × ((pop_left c ≡ 0) ⊎ (pop_left (start_pop s.queue c) + 0 ≤ pop_left c))
      starts Consumer.rests few = (omega arith, inl refl)
      starts (Consumer.looks pos tries) few = (few, inr (omega arith))
      starts (Consumer.moves pos) few = (few, inr (omega arith))
      starts (Consumer.reads pos) few = (few, inr (omega arith))
      starts (Consumer.clears pos x) few = (few, inr (omega arith))
      starts (Consumer.marks pos x) few = (few, inr (omega arith))
  pop-Falls produce s few = (few, inr (omega arith))
  pop-Falls consume s few = goes s.consumer few
    where
      goes :
          (c : Consumer T)
          → FewPopLooks c
          → FewPopLooks (pop_step blank c s.queue s.popped).1
            × ((pop_left c ≡ 0) ⊎ (pop_left (pop_step blank c s.queue s.popped).1 + 1 ≤ pop_left c))
      goes Consumer.rests few = (tt, inl refl)
      goes (Consumer.looks pos tries) few = elim (Bool-cases (tries == 3)) [
        | inl y ↦ rw y (tt, inr (omega (arith, few)))
        | inr n ↦
            let more : tries + 1 ≤ 3 = ground (arith, n, few) in
            elim (Bool-cases (s.queue.full pos)) [
              | inl f ↦ rw (n, f) (tt, inr (omega (arith, more)))
              | inr f ↦ rw (n, f) (more, inr (omega (arith, more)))
            ]
      ]
      goes (Consumer.moves pos) few = (tt, inr (omega arith))
      goes (Consumer.reads pos) few = (tt, inr (omega arith))
      goes (Consumer.clears pos x) few = (tt, inr (omega arith))
      goes (Consumer.marks pos x) few = (tt, inr (omega arith))

  push_rests : (p : Producer T) → FewPushLooks p → push_left p ≡ 0 → p ≡ Producer.rests
  push_rests Producer.rests few z = refl
  push_rests (Producer.looks pos tries x) few z = absurd (omega (arith, few, z))
  push_rests (Producer.moves pos x) few z = absurd (omega (arith, z))
  push_rests (Producer.writes pos x) few z = absurd (omega (arith, z))
  push_rests (Producer.marks pos x) few z = absurd (omega (arith, z))

  pop_rests : (c : Consumer T) → FewPopLooks c → pop_left c ≡ 0 → c ≡ Consumer.rests
  pop_rests Consumer.rests few z = refl
  pop_rests (Consumer.looks pos tries) few z = absurd (omega (arith, few, z))
  pop_rests (Consumer.moves pos) few z = absurd (omega (arith, z))
  pop_rests (Consumer.reads pos) few z = absurd (omega (arith, z))
  pop_rests (Consumer.clears pos x) few z = absurd (omega (arith, z))
  pop_rests (Consumer.marks pos x) few z = absurd (omega (arith, z))

  -- Where both threads rest and each makes a call, whatever turns follow: with five of the producer, the
  -- call of `push` has returned after some of them, and with seven of the consumer, that of `pop`.
  pub calls_return :
      (x : T) (s : System T) (ts : List (Turn T))
      → s.producer ≡ Producer.rests
      → s.consumer ≡ Consumer.rests
      → 5 ≤ count_turns is_produce ts
      → 7 ≤ count_turns is_consume ts
      → let called = turn blank call_pop (turn blank (call_push x) s) in
        ((before : List (Turn T)) × (after : List (Turn T)) × (ts ≡ before ++ after)
          × ((run blank before called).producer ≡ Producer.rests))
        × ((before : List (Turn T)) × (after : List (Turn T)) × (ts ≡ before ++ after)
            × ((run blank before called).consumer ≡ Consumer.rests))
  unfolding turn
  calls_return x s ts rests_push rests_pop five seven =
      let called = turn blank call_pop (turn blank (call_push x) s) in
      let pushing : called.producer ≡ Producer.looks (s.queue.end % s.queue.max_size) 0 x =
        ap (start_push x s.queue) rests_push in
      let popping : called.consumer ≡ Consumer.looks (s.queue.begin % s.queue.max_size) 0 =
        ap (start_pop s.queue) rests_pop in
      let (b, a, split, z, few) =
        falls_to_zero (λ s. push_left s.producer) is_produce (λ s. FewPushLooks s.producer)
          push-Falls ts called (rw pushing (omega arith)) (rw pushing (omega (arith, five))) in
      let (b', a', split', z', few') =
        falls_to_zero (λ s. pop_left s.consumer) is_consume (λ s. FewPopLooks s.consumer) pop-Falls
          ts called (rw popping (omega arith)) (rw popping (omega (arith, seven))) in
      ((b, a, split, push_rests _ few z), (b', a', split', pop_rests _ few' z'))
