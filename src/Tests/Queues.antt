-- ===== src/Tests/Queues.antt =====
-- A queue of two threads, values written and read back, and events.
use casual_game.Prelude.{
  ℕ, ◌+◌, ◌^◌, ◌≡◌, ◌≤◌, refl, some, List, [], ◌∷◌, ◌++◌, arith, length, ltb, if◌then◌else◌,
  replicate, length-replicate,
}
use casual_game.Componet.FastTravelMap.{FastTravelMap, find}
use casual_game.Componet.FastTravelMap.Places.{IsValid, create-IsValid}
use casual_game.Componet.FastTravelMap
use casual_game.Componet.SpscQueue.{
  Turn, Producer, Consumer, call_push, call_pop, produce, consume, turn, run,
}
use casual_game.Componet.SpscQueue.Threads.{fresh, run-in_order}
use casual_game.Componet.SpscQueue.Returns.{calls_return}
use casual_game.Componet.Serialize.{
  Shape, trivial, text, pair, vector, linked, forward, Value, serialize, deserialize,
}
use casual_game.Componet.Serialize.RoundTrip.{Clean, deserialize-serialize}
use casual_game.Componet.Event.{Event, reg, unreg, raise}
use casual_game.Componet.Event.Handlers.{unreg-reg}

-- A push, in the middle of which a pop begins.
abbrev turns : List (Turn ℕ)
turns =
    call_push 5
    ∷ produce
    ∷ produce
    ∷ call_pop
    ∷ consume
    ∷ produce
    ∷ produce
    ∷ consume
    ∷ consume
    ∷ consume
    ∷ consume
    ∷ consume
    ∷ consume
    ∷ consume
    ∷ produce
    ∷ []

run-in_order_example :
    (waiting : List ℕ) × ((run 0 turns (fresh 0 2)).pushed
      ≡ (run 0 turns (fresh 0 2)).popped ++ waiting)
    × (length waiting ≤ 2 ^ (if ltb 2 24 then 2 else 24))
run-in_order_example = run-in_order 0 2 turns

calls_return_example :
    let called = turn {T = ℕ} 0 call_pop (turn 0 (call_push 5) (fresh 0 2)) in
    ((before : List (Turn ℕ)) × (after : List (Turn ℕ)) × (turns ≡ before ++ after)
      × ((run 0 before called).producer ≡ Producer.rests))
    × ((before : List (Turn ℕ)) × (after : List (Turn ℕ)) × (turns ≡ before ++ after)
        × ((run 0 before called).consumer ≡ Consumer.rests))
calls_return_example = calls_return 0 5 (fresh 0 2) turns refl refl (omega arith) (omega arith)

-- A list of texts and numbers, each of two bytes.
abbrev entries : Shape
entries = linked (pair text (vector (trivial 2)))

abbrev initial : (s : Shape) → Value s
initial (trivial n) = replicate n 0
initial text = []
initial (pair a b) = (initial a, initial b)
initial (vector a) = []
initial (linked a) = []
initial (forward a) = []

initial-Clean : (s : Shape) → Clean s (initial s)
initial-Clean (trivial n) = length-replicate n 0
initial-Clean text = tt
initial-Clean (pair a b) = (initial-Clean a, initial-Clean b)
initial-Clean (vector a) = tt
initial-Clean (linked a) = tt
initial-Clean (forward a) = refl

abbrev entry : List (List ℕ × List (List ℕ))
entry = (65 ∷ 66 ∷ [], (1 ∷ 2 ∷ []) ∷ (3 ∷ 4 ∷ []) ∷ []) ∷ ([], []) ∷ []

deserialize-serialize_example :
    deserialize initial entries [] (9 ∷ serialize entries entry ++ 7 ∷ []) 1
    ≡ some (entry, 1 + length (serialize entries entry))
deserialize-serialize_example =
    deserialize-serialize initial initial-Clean entries entry [] (9 ∷ []) (7 ∷ [])
      (
        omega arith,
        ((omega arith, (omega arith, (refl, (refl, tt)))), ((omega arith, (omega arith, tt)), tt)),
      )
      tt

abbrev no_handlers : Event ℕ
no_handlers = record { callbacks = FastTravelMap.create; last_reg_id = 0 }

unreg-reg_example :
    (raise (reg 7 no_handlers).0 ≡ raise no_handlers ++ 7 ∷ [])
    × IsValid (unreg (reg 7 no_handlers).1 (reg 7 no_handlers).0).callbacks
    × ((j : ℕ)
        → find j (unreg (reg 7 no_handlers).1 (reg 7 no_handlers).0).callbacks
          ≡ find j no_handlers.callbacks)
unfolding FastTravelMap.create
unreg-reg_example = unreg-reg no_handlers 7 create-IsValid refl
