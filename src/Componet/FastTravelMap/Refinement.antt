-- ===== src/Componet/FastTravelMap/Refinement.antt =====
-- A client of a map (water/componet/fast_travel_unordered_map.h): it behaves as a partial function from
-- the keys.
use casual_game.Prelude.{
  ℕ, ◌-◌, ◌≡◌, ◌∙◌, refl, sym, ap, inl, inr, Bool, true, false, Option, none, some, List, [], ◌∷◌,
  length, get_elem?, ◌&&◌, ◌==◌, if◌then◌else◌, Bool-cases, arith, get_elem?-inside,
  get_elem?-exists, get_elem?-front, get_elem?-last,
}
use casual_game.Componet.FastTravelMap.{
  FastTravelMap, create, insert_at, insert, find_at, find, erase_at, erase,
}
use casual_game.Componet.FastTravelMap.Places.{IsValid, create-IsValid, insert_at-IsValid}
use casual_game.Componet.FastTravelMap.Erased.{erase_at-Erased}

-- The calls of a client, and what they answer.
pub data Op (A : Type 0) : Type 0 where
  add : ℕ → A → Op A
  remove look : ℕ → Op A

pub data Reply (A : Type 0) : Type 0 where
  added : Bool → Reply A
  done : Reply A
  found : Option A → Reply A

abbrev pub is_none : {A : Type 0} → Option A → Bool
is_none none = true
is_none (some a) = false

module _ {A : Type 0} where
  unfoldable pub run : FastTravelMap A → List (Op A) → List (Reply A)
  run m [] = []
  run m (add k v ∷ ops) = added (insert k v m).1 ∷ run (insert k v m).0 ops
  run m (remove k ∷ ops) = done ∷ run (erase k m) ops
  run m (look k ∷ ops) = found (find k m) ∷ run m ops

  -- The same calls on a function: a key that has a value keeps it until it is removed.
  unfoldable pub run_function : (ℕ → Option A) → List (Op A) → List (Reply A)
  run_function f [] = []
  run_function f (add k v ∷ ops) =
      added (is_none (f k))
      ∷ run_function (λ j. if (j == k) && is_none (f k) then some v else f j) ops
  run_function f (remove k ∷ ops) = done ∷ run_function (λ j. if j == k then none else f j) ops
  run_function f (look k ∷ ops) = found (f k) ∷ run_function f ops

  find_value :
      (m : FastTravelMap A) (s : IsValid m) (k i : ℕ) (v : A)
      → get_elem? m.vec i ≡ some (k, v)
      → find k m ≡ some v
  unfolding find find_at
  find_value m s k i v e = rw (s.known k i v e, e) refl

  find_none : (m : FastTravelMap A) (k : ℕ) → m.index k ≡ none → find k m ≡ none
  unfolding find find_at
  find_none m k e = rw e refl

  -- A map in which `k` has a value of its own, and every other key has what it has in `m`.
  find-other :
      (m m' : FastTravelMap A) (s : IsValid m) (s' : IsValid m') (j : ℕ)
      → ((p : ℕ) (v : A)
          → get_elem? m.vec p ≡ some (j, v)
          → (q : ℕ) × (get_elem? m'.vec q ≡ some (j, v)))
      → (m.index j ≡ none → m'.index j ≡ none)
      → find j m' ≡ find j m
  find-other m m' s s' j kept absent = by_place (m.index j) refl
    where
      by_place : (o : Option ℕ) → m.index j ≡ o → find j m' ≡ find j m
      by_place none e = find_none m' j (absent e) ∙ sym (find_none m j e)
      by_place (some p) e =
          let (v, at) = s.there j p e in
          let (q, at') = kept p v at in find_value m' s' j q v at' ∙ sym (find_value m s j p v at)

  -- A map with a pair more.
  pub find-insert :
      (m : FastTravelMap A) (s : IsValid m) (k : ℕ) (v : A)
      → IsValid (insert k v m).0
        × ((insert k v m).1 ≡ is_none (find k m))
        × ((j : ℕ)
            → find j (insert k v m).0
              ≡ (if (j == k) && is_none (find k m) then some v else find j m))
  unfolding insert insert_at
  find-insert m s k v = by_place (m.index k) refl
    where
      by_place :
          (o : Option ℕ)
          → m.index k ≡ o
          → IsValid (insert_at o k v m).0
            × ((insert_at o k v m).1 ≡ is_none (find k m))
            × ((j : ℕ)
                → find j (insert_at o k v m).0
                  ≡ (if (j == k) && is_none (find k m) then some v else find j m))
      by_place (some i) e =
          let (u, at) = s.there k i e in
          let has : find k m ≡ some u = find_value m s k i u at in
          rw has
            (s, refl, λ j. elim (Bool-cases (j == k)) [ inl y ↦ rw y refl | inr n ↦ rw n refl ])
      by_place none e =
          let valid = insert_at-IsValid m s k v e in
          rw (find_none m k e) (
            valid,
            refl,
            λ j. elim (Bool-cases (j == k)) [
              | inl y ↦
                  let key : k ≡ j = ground (arith, y) in
                  rw y (
                    find_value _ valid j (length m.vec) v
                      (rw (← key) (get_elem?-last m.vec (k, v))))
              | inr n ↦ rw n (
                  find-other m _ s valid j
                    (λ p w at.
                      (p, get_elem?-front m.vec ((k, v) ∷ []) p (get_elem?-inside m.vec p at) ∙ at))
                    (λ h. rw n h))
            ],
          )

  -- A map with a key less.
  pub find-erase :
      (m : FastTravelMap A) (s : IsValid m) (k : ℕ)
      → IsValid (erase k m) × ((j : ℕ) → find j (erase k m) ≡ (if j == k then none else find j m))
  unfolding erase erase_at
  find-erase m s k = by_place (m.index k) refl
    where
      by_place :
          (o : Option ℕ)
          → m.index k ≡ o
          → IsValid (erase_at o k m)
            × ((j : ℕ) → find j (erase_at o k m) ≡ (if j == k then none else find j m))
      by_place (some i) e =
          let (u, at) = s.there k i e in
          let ((l, w), at_last) =
            get_elem?-exists m.vec (length m.vec - 1)
              (omega (arith, get_elem?-inside m.vec i at)) in
          let erased = erase_at-Erased m s k i l u w at at_last in
          (
            erased.valid,
            λ j. elim (Bool-cases (j == k)) [
              | inl y ↦
                  let key : k ≡ j = ground (arith, y) in
                  rw y (find_none _ j (ap (erase_at (some i) k m).index (sym key) ∙ erased.gone))
              | inr n ↦ rw n (
                  find-other m _ s erased.valid j
                    (λ p v here.
                      erased.kept j p v (λ (q : j ≡ k). absurd (ground (arith, n, q))) here)
                    (erased.absent j))
            ],
          )
      by_place none e = (
        s,
        λ j. elim (Bool-cases (j == k)) [
          | inl y ↦
              let key : k ≡ j = ground (arith, y) in rw y (find_none m j (ap m.index (sym key) ∙ e))
          | inr n ↦ rw n refl
        ],
      )

  run_refines :
      (ops : List (Op A)) (m : FastTravelMap A) (f : ℕ → Option A)
      → IsValid m
      → ((j : ℕ) → find j m ≡ f j)
      → run m ops ≡ run_function f ops
  unfolding run run_function
  run_refines [] m f s same = refl
  run_refines (add k v ∷ ops) m f s same =
      let (valid, answer, values) = find-insert m s k v in
      rw (answer, same k)
        (ap (◌∷◌ (added (is_none (f k)))) (
          run_refines ops (insert k v m).0 (λ j. if (j == k) && is_none (f k) then some v else f j)
            valid (λ j. values j ∙ rw (same k, same j) refl)))
  run_refines (remove k ∷ ops) m f s same =
      let (valid, values) = find-erase m s k in
      ap (◌∷◌ done) (
        run_refines ops (erase k m) (λ j. if j == k then none else f j) valid
          (λ j. values j ∙ rw (same j) refl))
  run_refines (look k ∷ ops) m f s same =
      rw (same k) (ap (◌∷◌ (found (f k))) (run_refines ops m f s same))

  -- Whatever calls a client makes of a new map, they are answered as by a function from the keys, which
  -- has no value at first.
  pub run-run_function : (ops : List (Op A)) → run create ops ≡ run_function (λ k. none) ops
  unfolding create
  run-run_function ops =
      run_refines ops create (λ k. none) create-IsValid (λ j. find_none create j refl)
