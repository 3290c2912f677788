-- ===== src/Componet/Event.antt =====
-- `Event` (water/componet/event.h): handlers in a vector, and an index from their ids to their places,
-- kept as in the map of fast_travel_unordered_map.h.
pub mod Handlers
use casual_game.Prelude.{
  ℕ, ◌+◌, ◌-◌, ◌%◌, ◌^◌, Bool, true, false, Option, none, some, List, [], ◌∷◌, ◌++◌, length, ◌==◌,
  if◌then◌else◌,
}
use casual_game.Componet.FastTravelMap.{FastTravelMap, create, erase, with_place}

pub record Event (H : Type 0) : Type 0 where
  pub callbacks : FastTravelMap H
  pub last_reg_id : ℕ

module _ {H : Type 0} where
  -- `reg`: the event and the id of the handler.
  unfoldable pub reg : H → Event H → Event H × ℕ
  reg cb e =
      let id = (e.last_reg_id + 1) % 2 ^ 64 in
      let vec = e.callbacks.vec ++ (id, cb) ∷ [] in
      (
        record {
          callbacks = record {
            vec = vec;
            index = with_place id (some (length vec - 1)) e.callbacks.index;
          };
          last_reg_id = id;
        },
        id,
      )

  -- `unreg`: a single handler goes whatever the id is; else the code is that of `erase`.
  unfoldable pub unreg : ℕ → Event H → Event H
  unreg id e =
      if length e.callbacks.vec == 1
      then record e { callbacks = create }
      else record e { callbacks = erase id e.callbacks }

  abbrev pub handlers : List (ℕ × H) → List H
  handlers [] = []
  handlers ((id, cb) ∷ rest) = cb ∷ handlers rest

  -- `operator ()`: the handlers in the order of the calls; an exception of one does not stop the others.
  unfoldable pub raise : Event H → List H
  raise e = handlers e.callbacks.vec
