-- ===== src/Componet/FastTravelMap.antt =====
-- `FastTravelUnorderedMap` (water/componet/fast_travel_unordered_map.h): the pairs in a vector, and an
-- index from the keys to their places. An iterator is a place; the standard library's map is a function.
pub mod Places
pub mod Erasing
pub mod Erased
pub mod Refinement
use casual_game.Prelude.{
  ℕ, zero, suc, ◌+◌, ◌-◌, Bool, true, false, not, Option, none, some, List, [], ◌∷◌, ◌++◌, length,
  get_elem?, set, take, ltb, ◌==◌, if◌then◌else◌,
}

pub record FastTravelMap (A : Type 0) : Type 0 where
  pub vec : List (ℕ × A)
  pub index : ℕ → Option ℕ

abbrev pub value : {A : Type 0} → Option (ℕ × A) → Option A
value none = none
value (some (k, v)) = some v

-- The standard library's `operator []` with an assignment, and its `erase`.
abbrev pub with_place : ℕ → Option ℕ → (ℕ → Option ℕ) → ℕ → Option ℕ
with_place k place index j = if j == k then place else index j

module _ {A : Type 0} where
  unfoldable pub create : FastTravelMap A
  create = record { vec = []; index = λ k. none }

  -- `insert` where the index has the key, and where it does not.
  unfoldable pub insert_at : Option ℕ → ℕ → A → FastTravelMap A → FastTravelMap A × Bool
  insert_at (some i) k v m = (m, false)
  insert_at none k v m =
      let vec = m.vec ++ (k, v) ∷ [] in
      (record { vec = vec; index = with_place k (some (length vec - 1)) m.index }, true)

  unfoldable pub insert : ℕ → A → FastTravelMap A → FastTravelMap A × Bool
  insert k v m = insert_at (m.index k) k v m

  -- `find`, with the value there; `none` is `end()`.
  unfoldable pub find_at : Option ℕ → FastTravelMap A → Option A
  find_at none m = none
  find_at (some i) m = value (get_elem? m.vec i)

  unfoldable pub find : ℕ → FastTravelMap A → Option A
  find k m = find_at (m.index k) m

  -- The last pair goes to place `i`; the vector is not empty where this is called.
  unfoldable pub move_to : ℕ → Option (ℕ × A) → FastTravelMap A → FastTravelMap A
  move_to i none m = m
  move_to i (some (l, v)) m = record {
    vec = set m.vec i (l, v);
    index = with_place l (some i) m.index;
  }

  abbrev pub pop_back : List (ℕ × A) → List (ℕ × A)
  pop_back vec = take (length vec - 1) vec

  -- `erase(Key)` with what the index has.
  unfoldable pub erase_at : Option ℕ → ℕ → FastTravelMap A → FastTravelMap A
  erase_at none k m = m
  erase_at (some i) k m =
      if length m.vec == 1
      then create
      else let m' =
          if i + 1 == length m.vec then m else move_to i (get_elem? m.vec (length m.vec - 1)) m in
        record { vec = pop_back m'.vec; index = with_place k none m'.index }

  unfoldable pub erase : ℕ → FastTravelMap A → FastTravelMap A
  erase k m = erase_at (m.index k) k m
