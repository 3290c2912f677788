-- ===== src/Componet/FastTravelMap/Erased.antt =====
-- `erase` takes out one key (water/componet/fast_travel_unordered_map.h).
use casual_game.Prelude.{
  ℕ, ◌+◌, ◌-◌, ◌≡◌, ◌≢◌, ◌∙◌, refl, sym, inl, inr, false, Option, none, some, length, get_elem?,
  set, ◌==◌, Bool-cases, arith, get_elem?-set_self, get_elem?-set_ne, length-set, length-take,
  get_elem?-inside, get_elem?-take,
}
use casual_game.Componet.FastTravelMap.{
  FastTravelMap, create, move_to, pop_back, erase_at, with_place,
}
use casual_game.Componet.FastTravelMap.Places.{IsValid, same_key}
use casual_game.Componet.FastTravelMap.Erasing.{
  Holds, Moved, Moved-kept, Moved-IsValid, Moved-gone, Moved-absent,
}

module _ {A : Type 0} where
  -- A map without the key `k`, that is otherwise as `m`.
  pub record Erased (m : FastTravelMap A) (k : ℕ) (m' : FastTravelMap A) : Type 0 where
    pub valid : IsValid m'
    pub kept : (j p : ℕ) (v : A) → j ≢ k → get_elem? m.vec p ≡ some (j, v) → Holds m' j v
    pub gone : m'.index k ≡ none
    pub absent : (j : ℕ) → m.index j ≡ none → m'.index j ≡ none

  module _ (m : FastTravelMap A) (s : IsValid m) (k i l : ℕ) (u w : A)
      (at : get_elem? m.vec i ≡ some (k, u))
      (at_last : get_elem? m.vec (length m.vec - 1) ≡ some (l, w)) where
    Moved-Erased : (m' : FastTravelMap A) → Moved m s k i l u w at at_last m' → Erased m k m'
    Moved-Erased m' d = record {
      valid = Moved-IsValid m s k i l u w at at_last m' d;
      kept = Moved-kept m s k i l u w at at_last m' d;
      gone = Moved-gone m s k i l u w at at_last m' d;
      absent = Moved-absent m s k i l u w at at_last m' d;
    }

    last_key : i ≡ length m.vec - 1 → l ≡ k
    last_key e = (same_key at_last (rw e at at)).0

    popped :
        i + 1 ≡ length m.vec
        → Moved m s k i l u w at at_last
            (record { vec = pop_back m.vec; index = with_place k none m.index })
    popped e = record {
      short = omega (arith, length-take (length m.vec - 1) m.vec);
      places = λ p h.
          let apart : (p == i) ≡ false = ground (arith, h, e) in
          rw apart (get_elem?-take (length m.vec - 1) p m.vec h);
      index_is = λ j. elim (Bool-cases (j == k)) [
        | inl y ↦ rw y refl
        | inr n ↦
            let not_l : (j == l) ≡ false = ground (arith, n, last_key (omega (arith, e))) in
            rw (n, not_l) refl
      ];
    }

    swapped : Moved m s k i l u w at at_last (record {
      vec = pop_back (set m.vec i (l, w));
      index = with_place k none (with_place l (some i) m.index);
    })
    swapped =
        let size = length-set m.vec i (l, w) in
        record {
          short =
              omega
                (arith, size, length-take (length (set m.vec i (l, w)) - 1) (set m.vec i (l, w)));
          places = λ p h.
              get_elem?-take (length (set m.vec i (l, w)) - 1) p (set m.vec i (l, w))
                (omega (arith, size, h))
              ∙ elim (Bool-cases (p == i)) [
                | inl y ↦
                    let here : p ≡ i = ground (arith, y) in
                    rw (y, here) (get_elem?-set_self m.vec i (l, w) (get_elem?-inside m.vec i at))
                | inr n ↦
                    rw n
                      (get_elem?-set_ne m.vec (l, w) (λ (q : i ≡ p). absurd (ground (arith, n, q))))
              ];
          index_is = λ j. refl;
        }

    single : length m.vec ≡ 1 → Moved m s k i l u w at at_last create
    unfolding create
    single e = record {
      short = omega (arith, e);
      places = λ p h. absurd (omega (arith, e, h));
      index_is = λ j. elim (Bool-cases (j == k)) [
        | inl y ↦ rw y refl
        | inr n ↦
            let not_l : (j == l) ≡ false =
              ground (arith, n, last_key (omega (arith, e, get_elem?-inside m.vec i at))) in
            rw (n, not_l) (sym (alone j n (m.index j) refl))
      ];
    }
      where
        alone : (j : ℕ) → (j == k) ≡ false → (o : Option ℕ) → m.index j ≡ o → m.index j ≡ none
        alone j n none h = h
        alone j n (some p) h =
            let (v, here) = s.there j p h in
            let place : p ≡ i =
              omega (arith, e, get_elem?-inside m.vec i at, get_elem?-inside m.vec p here) in
            let key : j ≡ k = (same_key here (rw (← place) at at)).0 in
            absurd (ground (arith, n, key))

    pub erase_at-Erased : Erased m k (erase_at (some i) k m)
    unfolding erase_at move_to
    erase_at-Erased = elim (Bool-cases (length m.vec == 1)) [
      | inl y ↦ rw y (Moved-Erased create (single (ground (arith, y))))
      | inr n ↦ elim (Bool-cases (i + 1 == length m.vec)) [
        | inl y ↦ rw (n, y) (Moved-Erased _ (popped (ground (arith, y))))
        | inr o ↦ rw (n, o, at_last) (Moved-Erased _ swapped)
      ]
    ]
