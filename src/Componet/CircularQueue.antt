-- ===== src/Componet/CircularQueue.antt =====
-- `CircularQueue` (water/componet/circular_queue.h). An exception is `none`.
pub mod Window
pub mod Refinement
pub mod Runs
use casual_game.Prelude.{
  ℕ, zero, suc, ◌+◌, ◌-◌, ◌%◌, Bool, true, false, Option, none, some, List, [], ◌∷◌, length,
  get_elem?, set, replicate, ◌==◌, if◌then◌else◌,
}

-- The cells, of which a fresh or a popped one holds `T()`.
pub record CircularQueue (T : Type 0) : Type 0 where
  pub begin : ℕ
  pub end : ℕ
  pub size : ℕ
  pub cells : List T

module _ {T : Type 0} (blank : T) where
  unfoldable pub create : ℕ → CircularQueue T
  create max_size = record { begin = 0; end = 0; size = 0; cells = replicate max_size blank }

  abbrev pub max_size : CircularQueue T → ℕ
  max_size q = length q.cells

  abbrev pub empty : CircularQueue T → Bool
  empty q = q.size == 0

  abbrev pub full : CircularQueue T → Bool
  full q = q.size == max_size q

  abbrev pub next_pos : CircularQueue T → ℕ → ℕ
  next_pos q pos = (pos + 1) % max_size q

  unfoldable pub top : CircularQueue T → Option T
  top q = if empty q then none else get_elem? q.cells q.begin

  unfoldable pub push : T → CircularQueue T → CircularQueue T × Bool
  push item q = if q.size == max_size q then (q, false) else (
    record q { cells = set q.cells q.end item; end = next_pos q q.end; size = q.size + 1 },
    true,
  )

  unfoldable pub pop : CircularQueue T → CircularQueue T
  pop q = if empty q then q else record q {
    cells = set q.cells q.begin blank;
    begin = (q.begin + 1) % max_size q;
    size = q.size - 1;
  }

  -- `traverse`: the items that the callback is given, up to the one at which it returns false;
  -- `left` is `size() - traversed`.
  unfoldable pub traverse_from : (T → Bool) → CircularQueue T → ℕ → ℕ → List T
  traverse_from callback q i zero = []
  traverse_from callback q i (suc left) = elim (get_elem? q.cells i) [
    | none ↦ []
    | some item ↦
        let rest = traverse_from callback q (next_pos q i) left in
        if callback item then item ∷ rest else item ∷ []
  ]

  unfoldable pub traverse : (T → Bool) → CircularQueue T → List T
  unfolding traverse_from
  traverse callback q = traverse_from callback q q.begin q.size
