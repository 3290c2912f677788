-- ===== src/Rooms.antt =====
-- The rooms of the lobby (room.cpp) and the messages and ticks that reach their games (game13.cpp).
pub mod Games
pub mod Invariant
pub mod Ticks
use casual_game.Prelude.{
  ℕ, zero, suc, ◌+◌, ◌%◌, ◌^◌, ◌≡◌, Bool, true, false, not, ◌&&◌, Option, none, some, List, [], ◌∷◌,
  replicate, ltb, ◌==◌, if◌then◌else◌, ◌>>=◌,
}
use casual_game.Prelude.Int.{ℤ, pos}
use casual_game.Game13.Table.{
  Client, get_by_cuid, get_by_ccid, update_client, set_room_id, after_leave_room, empty_seat, Vote,
  GameStatus, Attr, Game, Session, player_index, gp_52, gp_65,
}
use casual_game.Game13.Actions.{enter_room}
use casual_game.Game13.Handlers.{give_up, vote_for_abort, ready_flag, bring_out, timer_exec}

-- `s_rooms`, in the order in which the map is iterated. A room stays under the id that it was added
-- with, also when its own id is set to 0.
abbrev pub Rooms : Type 0
Rooms = List (ℕ × Game)

-- The lobby's state that its games share.
pub record World : Type 0 where
  pub clients : List Client
  pub deck : List ℕ
  pub rooms : Rooms
  pub expired_ids : List ℕ
  pub last_room_id : ℕ
  pub timer_time : ℕ

abbrev pub initial_world : World
initial_world = record {
  clients = [];
  deck = [];
  rooms = [];
  expired_ids = [];
  last_room_id = 100000;
  timer_time = 0;
}

-- `Room::get`.
unfoldable pub get_room : ℕ → Rooms → Option Game
get_room id [] = none
get_room id ((k, g) ∷ rooms) = if k == id then some g else get_room id rooms

-- What a game has become, under the id that its room was found with.
unfoldable pub put_room : ℕ → Game → Rooms → Rooms
put_room id g [] = []
put_room id g ((k, old) ∷ rooms) =
    if k == id then (k, g) ∷ rooms else (k, old) ∷ put_room id g rooms

-- `Room::getRoomId`; the ids are 32 bits wide.
unfoldable pub get_room_id : World → ℕ × World
get_room_id w = elim w.expired_ids [
  | [] ↦ let id = (w.last_room_id + 1) % 2 ^ 32 in (id, record w { last_room_id = id })
  | id ∷ ids ↦ (id, record w { expired_ids = ids })
]

-- A step of the game in the room `id`, if there is such a room.
unfoldable pub in_room : ℕ → (Session → Option Session) → World → Option World
unfolding get_room put_room
in_room id step w = elim (get_room id w.rooms) [
  | none ↦ some w
  | some g ↦ do
    s ← step (record { clients = w.clients; deck = w.deck; game = g })
    some (record w { clients = s.clients; deck = s.deck; rooms = put_room id s.game w.rooms })
]

-- `C_G13_CreateGame`.
pub record CreateGame : Type 0 where
  pub player_size : ℕ
  pub play_type : ℕ
  pub rounds : ℤ
  pub payor : ℕ
  pub da_qiang : ℕ
  pub quan_lei_da : Bool
  pub yi_tiao_long : ℕ

-- A game as it is created, its attributes and its empty seats set.
unfoldable pub new_game : ℕ → ℕ → CreateGame → Game
new_game id owner m = record {
  id = id;
  owner_cuid = owner;
  attr = record {
    room_id = id;
    play_type = if ltb gp_52 m.play_type then gp_65 else gp_52;
    rounds = m.rounds;
    payor = m.payor;
    da_qiang = m.da_qiang;
    quan_lei_da = m.quan_lei_da;
    yi_tiao_long = m.yi_tiao_long;
    player_size = m.player_size;
  };
  players = replicate m.player_size empty_seat;
  status = GameStatus.prepare;
  rounds = 0;
  start_vote_time = 0;
  vote_sponsor_cuid = 0;
  settle_all_time = 0;
  settle_data = [];
}

-- `Room::add`, and the entering of the creator.
unfoldable pub add_room : ℕ → Client → CreateGame → World → Option World
unfolding new_game
add_room id c m w = elim (get_room id w.rooms) [
  | some g ↦ some w
  | none ↦
      in_room id (λ s. some (enter_room c s).0)
        (record w { rooms = (id, new_game id c.cuid m) ∷ w.rooms })
]

-- `proto_C_G13_CreateGame`.
unfoldable pub create_game : CreateGame → ℕ → World → Option World
unfolding get_room_id add_room
create_game m ccid w = elim (get_by_ccid w.clients ccid) [
  | none ↦ some w
  | some c ↦
      if not (c.room_id == 0) then some w else let (id, w') = get_room_id w in add_room id c m w'
]

-- `proto_C_G13_JionGame`.
unfoldable pub join_game : ℕ → ℕ → World → Option World
unfolding in_room
join_game room ccid w = elim (get_by_ccid w.clients ccid) [
  | none ↦ some w
  | some c ↦ in_room room (λ s. some (enter_room c s).0) w
]

-- The head of the handlers of a client in a room: a client whose room is gone leaves it.
unfoldable pub in_room_of : (Client → Session → Option Session) → ℕ → World → Option World
unfolding in_room
in_room_of step ccid w = elim (get_by_ccid w.clients ccid) [
  | none ↦ some w
  | some c ↦ elim (get_room c.room_id w.rooms) [
    | none ↦ some (record w { clients = update_client c.cuid after_leave_room w.clients })
    | some g ↦ in_room c.room_id (step c) w
  ]
]

-- The same where a client in no room is refused at first.
unfoldable pub in_own_room : (Client → Session → Option Session) → ℕ → World → Option World
unfolding in_room_of
in_own_room step ccid w = elim (get_by_ccid w.clients ccid) [
  | none ↦ some w
  | some c ↦ if c.room_id == 0 then some w else in_room_of step ccid w
]

-- `proto_C_G13_GiveUp`.
abbrev pub handle_give_up : ℕ → World → Option World
handle_give_up ccid w = in_own_room (λ c s. some (give_up w.timer_time c s)) ccid w

-- `proto_C_G13_VoteFoAbortGame`.
abbrev pub handle_vote : Vote → ℕ → World → Option World
handle_vote v ccid w = in_room_of (λ c s. some (vote_for_abort v c s)) ccid w

-- `Room::clientOnline` and `clientOnlineExec`: a client who is not in the room leaves it, and another
-- one is only sent messages.
unfoldable pub client_online : ℕ → World → World
client_online cuid w = elim (get_by_cuid w.clients cuid) [
  | none ↦ w
  | some c ↦
      if c.room_id == 0
      then w
      else let left = record w { clients = update_client cuid (set_room_id 0) w.clients } in
        elim (get_room c.room_id w.rooms) [
          | none ↦ left
          | some g ↦
              if c.room_id == g.id
              then elim (player_index cuid g.players) [ none ↦ left | some i ↦ w ]
              else w
        ]
]

module _ (shuffle : List ℕ → List ℕ) where
  -- `proto_C_G13_ReadyFlag`.
  abbrev pub handle_ready : Bool → ℕ → World → Option World
  handle_ready ready ccid w = in_own_room (ready_flag shuffle ready) ccid w

  -- `proto_C_G13_BringOut`.
  abbrev pub handle_bring_out : List ℕ → ℕ → World → Option World
  handle_bring_out cards ccid w = in_own_room (bring_out shuffle w.timer_time cards) ccid w

  -- The loop of `Room::timerExecAll`: it ends behind the first room that is erased.
  unfoldable pub timer_loop :
      ℕ → Rooms → List Client → List ℕ → Option (Rooms × (List Client × List ℕ))
  timer_loop now [] clients deck = some ([], (clients, deck))
  timer_loop now ((k, g) ∷ rooms) clients deck =
      if g.id == 0 then some (rooms, (clients, deck)) else do
        s ← timer_exec shuffle now (record { clients = clients; deck = deck; game = g })
        (rooms', last) ← timer_loop now rooms s.clients s.deck
        some ((k, s.game) ∷ rooms', last)

  -- `Room::timerExecAll`.
  unfoldable pub timer_exec_all : ℕ → World → Option World
  unfolding timer_loop
  timer_exec_all now w = do
    (rooms, last) ← timer_loop now w.rooms w.clients w.deck
    some (record w { clients = last.0; deck = last.1; rooms = rooms; timer_time = now })
