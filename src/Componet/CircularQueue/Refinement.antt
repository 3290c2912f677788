-- ===== src/Componet/CircularQueue/Refinement.antt =====
-- A circular queue holds its items oldest first, whatever its cells (water/componet/circular_queue.h).
use casual_game.Prelude.{
  ℕ, zero, suc, ◌+◌, ◌-◌, ◌%◌, ◌≤◌, ◌<◌, ◌≡◌, ◌≢◌, ◌∙◌, refl, sym, ap, inl, inr, Bool, true, false,
  Option, none, some, List, [], ◌∷◌, ◌++◌, length, length-set, set, replicate, length-replicate,
  ◌==◌, if◌then◌else◌, Bool-cases, arith,
}
use native.Mathlib.Nat.{mod-lt, mod-add-mod, mod-eq_of_lt}
use casual_game.Componet.CircularQueue.{
  CircularQueue, create, top, push, pop, traverse, traverse_from,
}
use casual_game.Componet.CircularQueue.Window.{
  items_from, length-items_from, items_from-set_behind, items_from-set_outside, get_elem?-get_or,
}

module _ {T : Type 0} (blank : T) where
  abbrev pub items : CircularQueue T → List T
  items q = items_from blank q.cells q.begin q.size

  pub record IsValid (q : CircularQueue T) : Type 0 where
    pub fits : q.size ≤ length q.cells
    pub begin_in : 0 < length q.cells → q.begin < length q.cells
    pub end_at : 0 < length q.cells → q.end ≡ (q.begin + q.size) % length q.cells

  -- The queue that a client sees: at most `cap` items, oldest first.
  abbrev pub push_items : ℕ → T → List T → List T × Bool
  push_items cap x xs = if length xs == cap then (xs, false) else (xs ++ x ∷ [], true)

  abbrev pub pop_items : List T → List T
  pop_items [] = []
  pop_items (x ∷ xs) = xs

  abbrev pub top_items : List T → Option T
  top_items [] = none
  top_items (x ∷ xs) = some x

  -- The items up to the first that the callback refuses, it included.
  abbrev pub visited : (T → Bool) → List T → List T
  visited callback [] = []
  visited callback (x ∷ xs) =
      let rest = visited callback xs in if callback x then x ∷ rest else x ∷ []

  pub create-IsValid : (n : ℕ) → IsValid (create blank n)
  unfolding create
  create-IsValid n = record {
    fits = omega (arith, length-replicate n blank);
    begin_in = λ h. h;
    end_at = λ h. sym (mod-eq_of_lt {n = 0 + 0} {m = length (replicate n blank)} (omega arith));
  }

  module _ (q : CircularQueue T) (v : IsValid q) where
    length-items : length (items q) ≡ q.size
    length-items = length-items_from blank q.cells q.begin q.size

    pub push_refines :
        (x : T)
        → (items (push blank x q).0 ≡ (push_items (length q.cells) x (items q)).0)
          × ((push blank x q).1 ≡ (push_items (length q.cells) x (items q)).1)
          × (length (push blank x q).0.cells ≡ length q.cells)
    unfolding push
    push_refines x = elim (Bool-cases (q.size == length q.cells)) [
      | inl y ↦ rw (length-items, y) (refl, refl, refl)
      | inr n ↦
          let ne : q.size < length q.cells = ground (arith, n, v.fits) in
          let put =
            items_from-set_behind blank q.cells x q.size q.begin q.end (v.begin_in (omega arith)) ne
              (v.end_at (omega arith)) in
          let more : q.size + 1 ≡ suc q.size = omega arith in
          rw (length-items, n)
            (
              ap (λ k. items_from blank (set q.cells q.end x) q.begin k) more ∙ put,
              refl,
              length-set q.cells q.end x,
            )
    ]

    pub push-IsValid : (x : T) → IsValid (push blank x q).0
    unfolding push
    push-IsValid x = elim (Bool-cases (q.size == length q.cells)) [
      | inl y ↦ rw y v
      | inr n ↦
          let ne : q.size < length q.cells = ground (arith, n, v.fits) in
          let at_end = v.end_at (omega arith) in
          rw n (record {
            fits = omega (arith, length-set q.cells q.end x);
            begin_in = λ h. omega (arith, length-set q.cells q.end x, v.begin_in (omega arith));
            end_at = λ h.
                rw (length-set q.cells q.end x, at_end, mod-add-mod)
                  (ap (λ k. k % length q.cells) (omega arith));
          })
    ]

    pub pop_refines :
        (items (pop blank q) ≡ pop_items (items q)) × (length (pop blank q).cells ≡ length q.cells)
    unfolding pop
    pop_refines = pop_at q.size refl
      where
        pop_at :
            (n : ℕ)
            → q.size ≡ n
            → (items (pop blank q) ≡ pop_items (items q))
              × (length (pop blank q).cells ≡ length q.cells)
        pop_at zero e = rw e (refl, refl)
        pop_at (suc n) e =
            let other : (q.size == 0) ≡ false = ground (arith, e) in
            let left : q.size - 1 ≡ n = omega (arith, e) in
            let out =
              items_from-set_outside blank q.cells blank n ((q.begin + 1) % length q.cells) 0
                q.begin (v.begin_in (omega (arith, v.fits, e))) refl (omega (arith, v.fits, e)) in
            rw (other, left, length-set q.cells q.begin blank)
              (out ∙ ap (λ k. pop_items (items_from blank q.cells q.begin k)) (sym e), refl)

    pub pop-IsValid : IsValid (pop blank q)
    unfolding pop
    pop-IsValid = elim (Bool-cases (q.size == 0)) [
      | inl y ↦ rw y v
      | inr n ↦
          let some_left : 0 < q.size = ground (arith, n) in
          let room : 0 < length q.cells = omega (arith, v.fits) in
          let shift : q.begin + q.size ≡ q.begin + 1 + (q.size - 1) = omega arith in
          rw n (record {
            fits = omega (arith, length-set q.cells q.begin blank, v.fits);
            begin_in = λ h. omega (
              arith,
              length-set q.cells q.begin blank,
              mod-lt (q.begin + 1) {m = length q.cells} room,
            );
            end_at = λ h.
                rw (length-set q.cells q.begin blank, mod-add-mod)
                  (v.end_at room ∙ ap (λ k. k % length q.cells) shift);
          })
    ]

    pub top_refines : top blank q ≡ top_items (items q)
    unfolding top
    top_refines = top_at q.size refl
      where
        top_at : (n : ℕ) → q.size ≡ n → top blank q ≡ top_items (items q)
        top_at zero e = rw e refl
        top_at (suc n) e =
            let other : (q.size == 0) ≡ false = ground (arith, e) in
            rw (other, e)
              (get_elem?-get_or blank q.cells q.begin (v.begin_in (omega (arith, v.fits, e))))

    traverse_from-visited :
        (callback : T → Bool) (n i : ℕ)
        → (n ≢ 0 → i < length q.cells)
        → traverse_from blank callback q i n ≡ visited callback (items_from blank q.cells i n)
    unfolding traverse_from
    traverse_from-visited callback zero i h = refl
    traverse_from-visited callback (suc n) i h =
        let p : i < length q.cells = h (λ e. absurd (omega (arith, e))) in
        rw (get_elem?-get_or blank q.cells i p, traverse_from)
          (rw
            (traverse_from-visited callback n ((i + 1) % length q.cells)
              (λ _. mod-lt (i + 1) {m = length q.cells} (omega arith)))
            refl)

    pub traverse_refines :
        (callback : T → Bool) → traverse blank callback q ≡ visited callback (items q)
    unfolding traverse
    traverse_refines callback =
        traverse_from-visited callback q.size q.begin (λ n. v.begin_in (omega (arith, v.fits, n)))
