-- ===== src/Componet/SpscQueue/Pushing.antt =====
-- The producer keeps the queue sound (`push`, water/componet/lock_free_circular_queue_ss.h).
use mathlib.Core.List.{append_assoc}
use native.Mathlib.Nat.{add-zero, add-mod_right}
use casual_game.Prelude.{
  ℕ, ◌+◌, ◌%◌, ◌^◌, ◌<◌, ◌≡◌, ◌≢◌, ◌∙◌, refl, sym, ap, inl, inr, true, false, List, [], ◌∷◌, ◌++◌,
  length, get_elem?, ltb, ◌==◌, Bool-cases, arith, length-append, get_elem?-inside, get_elem?-front,
  get_elem?-last,
}
use casual_game.Componet.SpscQueue.{SpscQueue, Producer, Consumer, push_step, update}
use casual_game.Componet.SpscQueue.Around.{around-ne, counter_next}
use casual_game.Componet.SpscQueue.Invariant.{putting, Knows, Sees, Inv}

module _ {T : Type 0} where
  -- What the consumer knows is kept when an item comes behind.
  Sees-more :
      (c' : Consumer T) (at : ℕ) (waiting : List T) (x : T)
      → Sees c' at waiting
      → Sees c' at (waiting ++ x ∷ [])
  Sees-more Consumer.rests at waiting x h = tt
  Sees-more (Consumer.looks pos tries) at waiting x h = h
  Sees-more (Consumer.moves pos) at waiting x h =
      (h.0, omega (arith, length-append waiting (x ∷ [])))
  Sees-more (Consumer.reads pos) at waiting x h = h
  Sees-more (Consumer.clears pos y) at waiting x h =
      (h.0, get_elem?-front waiting (x ∷ []) 0 (get_elem?-inside waiting 0 h.1) ∙ h.1)
  Sees-more (Consumer.marks pos y) at waiting x h =
      (h.0, get_elem?-front waiting (x ∷ []) 0 (get_elem?-inside waiting 0 h.1) ∙ h.1)

module _ {T : Type 0} {q : SpscQueue T} {c : Consumer T} {pushed popped : List T} where
  -- Another place in `push` with the same effect so far.
  pub goes_to :
      (p p' : Producer T) (s : Inv q p c pushed popped)
      → putting p ≡ putting p'
      → Knows p' q ((length popped + length s.waiting) % q.max_size) s.waiting
      → Inv q p' c pushed popped
  goes_to p p' s e k = record {
    some_cells = s.some_cells;
    whole_circles = s.whole_circles;
    waiting = s.waiting;
    in_order = s.in_order;
    room = omega (arith, e, s.room);
    some_there = s.some_there;
    end_at = s.end_at ∙ ap (λ n. (length popped + length s.waiting + n) % 2 ^ 64) e;
    begin_at = s.begin_at;
    marked = s.marked;
    stored = s.stored;
    knows = k;
    sees = s.sees;
  }

  -- A place that is not full is behind the last item, with room.
  empty_place :
      (p : Producer T) (s : Inv q p c pushed popped)
      → q.full ((length popped + length s.waiting) % q.max_size) ≡ false
      → length s.waiting < q.max_size
  empty_place p s e = elim (Bool-cases (ltb (length s.waiting) q.max_size)) [
    | inl y ↦ ground (arith, y)
    | inr n ↦
        let size : length s.waiting ≡ q.max_size = ground (arith, n, s.room) in
        let place : (length popped + length s.waiting) % q.max_size
            ≡ (length popped + 0) % q.max_size =
          ap (λ k. (length popped + k) % q.max_size) size
          ∙ add-mod_right (length popped) q.max_size
          ∙ ap (λ k. k % q.max_size) (sym (add-zero (length popped))) in
        let first : ltb 0 (length s.waiting) ≡ true = ground (arith, size, s.some_cells) in
        cc (sym e ∙ ap q.full place ∙ s.marked 0 s.some_cells ∙ first)
  ]

  moved_end :
      (pos : ℕ) (x : T)
      → Inv q (Producer.moves pos x) c pushed popped
      → Inv (record q { end = (q.end + 1) % 2 ^ 64 }) (Producer.writes pos x) c pushed popped
  moved_end pos x s = record {
    some_cells = s.some_cells;
    whole_circles = s.whole_circles;
    waiting = s.waiting;
    in_order = s.in_order;
    room = omega (arith, s.knows.1);
    some_there = s.some_there;
    end_at =
        ap (λ e. (e + 1) % 2 ^ 64) s.end_at
        ∙ counter_next (length popped + length s.waiting + 0)
        ∙ ap (λ k. k % 2 ^ 64) (omega arith);
    begin_at = s.begin_at;
    marked = s.marked;
    stored = s.stored;
    knows = s.knows.0;
    sees = s.sees;
  }

  -- A cell behind the last item is another one than that of an item.
  behind :
      (p : Producer T) (s : Inv q p c pushed popped) (j : ℕ)
      → length s.waiting < q.max_size
      → j < q.max_size
      → j ≢ length s.waiting
      → ((length popped + j) % q.max_size == (length popped + length s.waiting) % q.max_size)
        ≡ false
  behind p s j free inside other =
      around-ne q.max_size (length popped) j (length s.waiting) inside free other

  written :
      (pos : ℕ) (x : T)
      → Inv q (Producer.writes pos x) c pushed popped
      → Inv (record q { item = update q.item pos x }) (Producer.marks pos x) c pushed popped
  written pos x s = record {
    some_cells = s.some_cells;
    whole_circles = s.whole_circles;
    waiting = s.waiting;
    in_order = s.in_order;
    room = s.room;
    some_there = s.some_there;
    end_at = s.end_at;
    begin_at = s.begin_at;
    marked = s.marked;
    stored = λ j y h e.
        let inside = get_elem?-inside s.waiting j e in
        let apart =
          behind (Producer.writes pos x) s j (omega (arith, s.room)) (omega (arith, s.room, inside))
            (λ (d : j ≡ length s.waiting). absurd (omega (arith, d, inside))) in
        rw (s.knows, apart) (s.stored j y h e);
    knows = (s.knows, ground arith);
    sees = s.sees;
  }

  put_in :
      (pos : ℕ) (x : T)
      → Inv q (Producer.marks pos x) c pushed popped
      → Inv (record q { full = update q.full pos true }) Producer.rests c (pushed ++ x ∷ []) popped
  put_in pos x s =
      let size : length (s.waiting ++ x ∷ []) ≡ length s.waiting + 1 =
        length-append s.waiting (x ∷ []) in
      record {
        some_cells = s.some_cells;
        whole_circles = s.whole_circles;
        waiting = s.waiting ++ x ∷ [];
        in_order = ap (λ l. l ++ x ∷ []) s.in_order ∙ append_assoc popped s.waiting (x ∷ []);
        room = omega (arith, size, s.room);
        some_there = omega (arith, size, s.some_there);
        end_at = s.end_at ∙ ap (λ k. k % 2 ^ 64) (omega (arith, size));
        begin_at = s.begin_at;
        marked = λ j inside. elim (Bool-cases (j == length s.waiting)) [
          | inl y ↦
              let place : (length popped + j) % q.max_size ≡ pos =
                ap (λ k. (length popped + k) % q.max_size) (ground (arith, y)) ∙ sym s.knows.0 in
              let at : ((length popped + j) % q.max_size == pos) ≡ true = ground (arith, place) in
              rw at (ground (arith, size, y))
          | inr n ↦
              let apart =
                behind (Producer.marks pos x) s j (omega (arith, s.room)) inside
                  (λ (d : j ≡ length s.waiting). absurd (ground (arith, n, d))) in
              rw (s.knows.0, apart) (s.marked j inside ∙ ground (arith, size, n))
        ];
        stored = λ j y h e. elim (Bool-cases (j == length s.waiting)) [
          | inl k ↦
              let last : j ≡ length s.waiting = ground (arith, k) in
              let same : x ≡ y = cc (
                sym (get_elem?-last s.waiting x)
                ∙ ap (get_elem? (s.waiting ++ x ∷ [])) (sym last)
                ∙ e) in
              ap (λ i. q.item ((length popped + i) % q.max_size)) last
              ∙ ap q.item (sym s.knows.0)
              ∙ s.knows.1
              ∙ same
          | inr k ↦
              let inside : j < length s.waiting =
                ground (arith, k, size, get_elem?-inside (s.waiting ++ x ∷ []) j e) in
              s.stored j y h (sym (get_elem?-front s.waiting (x ∷ []) j inside) ∙ e)
        ];
        knows = tt;
        sees = Sees-more c _ s.waiting x s.sees;
      }

  pub push_step-Inv :
      (p : Producer T) (blank : T)
      → Inv q p c pushed popped
      → let (q', p', pushed') = push_step blank p q pushed in Inv q' p' c pushed' popped
  unfolding push_step
  push_step-Inv Producer.rests blank s = s
  push_step-Inv (Producer.looks pos tries x) blank s = elim (Bool-cases (tries + 1 == 3)) [
    | inl y ↦ rw y (goes_to _ Producer.rests s refl tt)
    | inr n ↦ elim (Bool-cases (q.full pos)) [
      | inl y ↦ rw (n, y) (goes_to _ (Producer.looks pos (tries + 1) x) s refl s.knows)
      | inr f ↦
          rw (n, f)
            (goes_to _ (Producer.moves pos x) s refl (s.knows, empty_place _ s (rw s.knows at f)))
    ]
  ]
  push_step-Inv (Producer.moves pos x) blank s = moved_end pos x s
  push_step-Inv (Producer.writes pos x) blank s = written pos x s
  push_step-Inv (Producer.marks pos x) blank s = put_in pos x s
