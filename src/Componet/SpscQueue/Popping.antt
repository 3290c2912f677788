-- ===== src/Componet/SpscQueue/Popping.antt =====
-- The consumer keeps the queue sound (`pop`, water/componet/lock_free_circular_queue_ss.h).
use mathlib.Core.List.{append_assoc}
use native.Mathlib.Nat.{add-zero, add-mod_right}
use casual_game.Prelude.{
  ℕ, suc, ◌+◌, ◌%◌, ◌^◌, ◌≤◌, ◌<◌, ◌≡◌, ◌∙◌, refl, sym, ap, inl, inr, true, false, some, List, [],
  ◌∷◌, ◌++◌, length, get_elem?, drop, ltb, ◌==◌, Bool-cases, arith, length-append, get_elem?-inside,
  get_elem?-exists,
}
use casual_game.Componet.SpscQueue.{SpscQueue, Producer, Consumer, pop_step, update}
use casual_game.Componet.SpscQueue.Around.{around-ne, counter_next}
use casual_game.Componet.SpscQueue.Invariant.{putting, taking, cleared, Knows, Sees, Inv}

module _ {T : Type 0} where
  uncons : (w : List T) {x : T} → get_elem? w 0 ≡ some x → w ≡ x ∷ drop 1 w
  uncons [] e = cc e
  uncons (y ∷ w) e = cc e

  -- What the producer knows outlasts a step that leaves its cell's item, and no item more.
  Knows-kept :
      (p : Producer T) (q q' : SpscQueue T) (at at' : ℕ) (waiting rest : List T)
      → at ≡ at'
      → length rest ≤ length waiting
      → q'.max_size ≡ q.max_size
      → (0 < putting p → q'.item at ≡ q.item at)
      → Knows p q at waiting
      → Knows p q' at' rest
  Knows-kept Producer.rests q q' at at' waiting rest e less size kept k = tt
  Knows-kept (Producer.looks pos tries x) q q' at at' waiting rest e less size kept k = k ∙ e
  Knows-kept (Producer.moves pos x) q q' at at' waiting rest e less size kept k =
      (k.0 ∙ e, omega (arith, less, k.1, size))
  Knows-kept (Producer.writes pos x) q q' at at' waiting rest e less size kept k = k ∙ e
  Knows-kept (Producer.marks pos x) q q' at at' waiting rest e less size kept k =
      (k.0 ∙ e, ap q'.item k.0 ∙ kept (omega arith) ∙ ap q.item (sym k.0) ∙ k.1)

at_first : (n b : ℕ) → b % n ≡ (b + 0) % n
at_first n b = ap (λ k. k % n) (sym (add-zero b))

-- A cell behind the first one is another one.
behind : (n b j : ℕ) → 0 < j → j < n → ((b + j) % n == b % n) ≡ false
behind n b j some_way inside = rw (at_first n b) (
    around-ne n b j 0 inside (omega (arith, inside))
      (λ (d : j ≡ 0). absurd (omega (arith, d, some_way))))

module _ {T : Type 0} {q : SpscQueue T} {p : Producer T} {pushed popped : List T} where
  -- Another place in `pop` with the same effect so far.
  pub goes_to :
      (c c' : Consumer T) (s : Inv q p c pushed popped)
      → taking c ≡ taking c'
      → cleared c ≡ cleared c'
      → Sees c' (length popped % q.max_size) s.waiting
      → Inv q p c' pushed popped
  goes_to c c' s e f k = record {
    some_cells = s.some_cells;
    whole_circles = s.whole_circles;
    waiting = s.waiting;
    in_order = s.in_order;
    room = s.room;
    some_there = omega (arith, e, s.some_there);
    end_at = s.end_at;
    begin_at = s.begin_at ∙ ap (λ n. (length popped + n) % 2 ^ 64) e;
    marked = s.marked;
    stored = λ j x h. s.stored j x (omega (arith, h, f));
    knows = s.knows;
    sees = k;
  }

  -- A full place at the start holds an item.
  full_place :
      (c : Consumer T) (s : Inv q p c pushed popped)
      → q.full (length popped % q.max_size) ≡ true
      → 0 < length s.waiting
  full_place c s e =
      let first : ltb 0 (length s.waiting) ≡ true =
        sym (s.marked 0 s.some_cells) ∙ ap q.full (sym (at_first q.max_size (length popped))) ∙ e in
      ground (arith, first)

  moved_begin :
      (pos : ℕ)
      → Inv q p (Consumer.moves pos) pushed popped
      → Inv (record q { begin = (q.begin + 1) % 2 ^ 64 }) p (Consumer.reads pos) pushed popped
  moved_begin pos s = record {
    some_cells = s.some_cells;
    whole_circles = s.whole_circles;
    waiting = s.waiting;
    in_order = s.in_order;
    room = s.room;
    some_there = omega (arith, s.sees.1);
    end_at = s.end_at;
    begin_at =
        ap (λ e. (e + 1) % 2 ^ 64) s.begin_at
        ∙ counter_next (length popped + 0)
        ∙ ap (λ k. k % 2 ^ 64) (omega arith);
    marked = s.marked;
    stored = s.stored;
    knows = Knows-kept p q _ _ _ s.waiting s.waiting refl (omega arith) refl (λ h. refl) s.knows;
    sees = s.sees.0;
  }

  read :
      (pos : ℕ)
      → Inv q p (Consumer.reads pos) pushed popped
      → Inv q p (Consumer.clears pos (q.item pos)) pushed popped
  read pos s =
      let (x, e) = get_elem?-exists s.waiting 0 (omega (arith, s.some_there)) in
      let item : x ≡ q.item pos =
        sym (s.stored 0 x (omega arith) e)
        ∙ ap q.item (sym (at_first q.max_size (length popped)) ∙ sym s.sees) in
      goes_to _ (Consumer.clears pos (q.item pos)) s refl refl (s.sees, e ∙ ap some item)

  blanked :
      (pos : ℕ) (x blank : T)
      → Inv q p (Consumer.clears pos x) pushed popped
      → Inv (record q { item = update q.item pos blank }) p (Consumer.marks pos x) pushed popped
  blanked pos x blank s = record {
    some_cells = s.some_cells;
    whole_circles = s.whole_circles;
    waiting = s.waiting;
    in_order = s.in_order;
    room = s.room;
    some_there = s.some_there;
    end_at = s.end_at;
    begin_at = s.begin_at;
    marked = s.marked;
    stored = λ j y h e.
        let inside = get_elem?-inside s.waiting j e in
        rw
          (
            s.sees.0,
            behind q.max_size (length popped) j (omega (arith, h)) (omega (arith, inside, s.room)),
          )
          (s.stored j y (omega arith) e);
    knows =
        let kept : 0 < putting p
            → update q.item pos blank ((length popped + length s.waiting) % q.max_size)
              ≡ q.item ((length popped + length s.waiting) % q.max_size) =
          λ h.
            let apart =
              behind q.max_size (length popped) (length s.waiting) (omega (arith, s.some_there))
                (omega (arith, s.room, h)) in
            rw (s.sees.0, apart) refl in
        Knows-kept p q _ _ _ s.waiting s.waiting refl (omega arith) refl kept s.knows;
    sees = s.sees;
  }

  taken_out :
      (pos : ℕ) (x : T)
      → Inv q p (Consumer.marks pos x) pushed popped
      → Inv (record q { full = update q.full pos false }) p Consumer.rests pushed (popped ++ x ∷ [])
  taken_out pos x s =
      let rest = drop 1 s.waiting in
      let split : s.waiting ≡ x ∷ rest = uncons s.waiting s.sees.1 in
      let size : length s.waiting ≡ length rest + 1 = omega (arith, ap length split) in
      let gone : length (popped ++ x ∷ []) ≡ length popped + 1 = length-append popped (x ∷ []) in
      let on : (j : ℕ) → length (popped ++ x ∷ []) + j ≡ length popped + (j + 1) =
        λ j. omega (arith, gone) in
      record {
        some_cells = s.some_cells;
        whole_circles = s.whole_circles;
        waiting = rest;
        in_order =
            s.in_order ∙ ap (λ l. popped ++ l) split ∙ sym (append_assoc popped (x ∷ []) rest);
        room = omega (arith, size, s.room);
        some_there = omega arith;
        end_at = s.end_at ∙ ap (λ k. k % 2 ^ 64) (omega (arith, size, gone));
        begin_at = s.begin_at ∙ ap (λ k. k % 2 ^ 64) (omega (arith, gone));
        marked = λ j inside. elim (Bool-cases (ltb (j + 1) q.max_size)) [
          | inl y ↦
              let next : j + 1 < q.max_size = ground (arith, y) in
              let apart = behind q.max_size (length popped) (j + 1) (omega arith) next in
              rw (on j, s.sees.0, apart) (s.marked (j + 1) next ∙ ground (arith, size))
          | inr n ↦
              let round : j + 1 ≡ q.max_size = ground (arith, n, inside) in
              let place : (length (popped ++ x ∷ []) + j) % q.max_size ≡ pos =
                ap (λ k. k % q.max_size) (on j ∙ ap (λ k. length popped + k) round)
                ∙ add-mod_right (length popped) q.max_size
                ∙ sym s.sees.0 in
              let at : ((length (popped ++ x ∷ []) + j) % q.max_size == pos) ≡ true =
                ground (arith, place) in
              rw at (ground (arith, size, round, s.room))
        ];
        stored = λ j y h e.
            let next : j + 1 ≡ suc j = omega arith in
            ap (λ k. q.item (k % q.max_size)) (on j)
            ∙ s.stored (j + 1) y (omega arith)
                (ap (λ w. get_elem? w (j + 1)) split ∙ ap (get_elem? (x ∷ rest)) next ∙ e);
        knows =
            Knows-kept p q _ _ _ s.waiting rest
              (ap (λ k. k % q.max_size) (omega (arith, size, gone))) (omega (arith, size)) refl
              (λ h. refl) s.knows;
        sees = tt;
      }

  pub pop_step-Inv :
      (c : Consumer T) (blank : T)
      → Inv q p c pushed popped
      → let (q', c', popped') = pop_step blank c q popped in Inv q' p c' pushed popped'
  unfolding pop_step
  pop_step-Inv Consumer.rests blank s = s
  pop_step-Inv (Consumer.looks pos tries) blank s = elim (Bool-cases (tries == 3)) [
    | inl y ↦ rw y (goes_to _ Consumer.rests s refl refl tt)
    | inr n ↦ elim (Bool-cases (q.full pos)) [
      | inl y ↦
          rw (n, y)
            (goes_to _ (Consumer.moves pos) s refl refl (s.sees, full_place _ s (rw s.sees at y)))
      | inr f ↦ rw (n, f) (goes_to _ (Consumer.looks pos (tries + 1)) s refl refl s.sees)
    ]
  ]
  pop_step-Inv (Consumer.moves pos) blank s = moved_begin pos s
  pop_step-Inv (Consumer.reads pos) blank s = read pos s
  pop_step-Inv (Consumer.clears pos x) blank s = blanked pos x blank s
  pop_step-Inv (Consumer.marks pos x) blank s = taken_out pos x s
