-- ===== src/Game13/Table.antt =====
-- The state of a game (game13.h) and of the clients that it reads and changes (client.h,
-- client_manager.cpp).
use casual_game.Prelude.{
  ℕ, zero, suc, Bool, true, false, Option, none, some, List, [], ◌∷◌, map, ◌==◌, if◌then◌else◌,
}
use casual_game.Prelude.Int.{ℤ, pos, ltb_ℤ, ◌+ℤ◌}
use casual_game.Game13.Round.{PlayerData}

-- What a game reads of a client. The maps of `ClientManager` by connection and by player share the
-- client objects, so they are one list here, searched by either key.
pub record Client : Type 0 where
  pub ccid : ℕ
  pub cuid : ℕ
  pub room_id : ℕ
  pub money : ℤ

unfoldable pub get_by_cuid : List Client → ℕ → Option Client
get_by_cuid [] cuid = none
get_by_cuid (c ∷ cs) cuid = if c.cuid == cuid then some c else get_by_cuid cs cuid

unfoldable pub get_by_ccid : List Client → ℕ → Option Client
get_by_ccid [] ccid = none
get_by_ccid (c ∷ cs) ccid = if c.ccid == ccid then some c else get_by_ccid cs ccid

-- A change of the client object of the player `cuid`.
unfoldable pub update_client : ℕ → (Client → Client) → List Client → List Client
update_client cuid f [] = []
update_client cuid f (c ∷ cs) = if c.cuid == cuid then f c ∷ cs else c ∷ update_client cuid f cs

unfoldable pub set_room_id : ℕ → Client → Client
set_room_id room c = record c { room_id = room }

-- `afterLeaveRoom`.
unfoldable pub after_leave_room : Client → Client
after_leave_room c = record c { room_id = 0 }

unfoldable pub enough_money : Client → ℤ → Bool
enough_money c money = ltb_ℤ money c.money

unfoldable pub add_money : ℤ → Client → Client
add_money money c = record c { money = c.money +ℤ money }

-- `S_G13_PlayersInRoom::Status`.
pub data Status : Type 0 where
  no_status prep ready sort compare done : Status

abbrev pub is_ready : Status → Bool
is_ready ready = true
is_ready _ = false

abbrev pub is_sort : Status → Bool
is_sort sort = true
is_sort _ = false

abbrev pub is_compare : Status → Bool
is_compare compare = true
is_compare _ = false

-- `G13_VoteOfAbort`.
pub data Vote : Type 0 where
  no_vote aye nay : Vote

pub record PlayerInfo : Type 0 where
  pub cuid : ℕ
  pub status : Status
  pub money : ℤ
  pub cards : List ℕ
  pub vote : Vote

-- A seat as `resize` makes it. Its cards are not initialised, and nothing reads them before the first
-- deal writes them.
abbrev pub empty_seat : PlayerInfo
empty_seat = record { cuid = 0; status = no_status; money = pos 0; cards = []; vote = no_vote }

-- `PlayerInfo::clear`; cards and vote stay.
unfoldable pub clear : PlayerInfo → PlayerInfo
clear p = record p { cuid = 0; status = no_status; money = pos 0 }

pub data GameStatus : Type 0 where
  prepare play vote settle settle_all closed : GameStatus

-- `m_attr`.
pub record Attr : Type 0 where
  pub room_id : ℕ
  pub play_type : ℕ
  pub rounds : ℤ
  pub payor : ℕ
  pub da_qiang : ℕ
  pub quan_lei_da : Bool
  pub yi_tiao_long : ℕ
  pub player_size : ℕ

abbrev pub gp_52 : ℕ
gp_52 = 52

abbrev pub gp_65 : ℕ
gp_65 = 65

abbrev pub pay_banker : ℕ
pay_banker = 10

abbrev pub pay_share_equ : ℕ
pay_share_equ = 11

abbrev pub pay_winner : ℕ
pay_winner = 12

-- `id` is `Room::m_id`, 0 once the room is to be destroyed; times are in seconds.
pub record Game : Type 0 where
  pub id : ℕ
  pub owner_cuid : ℕ
  pub attr : Attr
  pub players : List PlayerInfo
  pub status : GameStatus
  pub rounds : ℕ
  pub start_vote_time : ℕ
  pub vote_sponsor_cuid : ℕ
  pub settle_all_time : ℕ
  pub settle_data : List (List PlayerData)

-- What a step of one game reads and changes: the clients, the deck that all games share, the game.
pub record Session : Type 0 where
  pub clients : List Client
  pub deck : List ℕ
  pub game : Game

unfoldable pub with_clients : Session → List Client → Session
with_clients s clients = record s { clients = clients }

unfoldable pub with_game : Session → Game → Session
with_game s game = record s { game = game }

-- `getPlayerInfoByCuid`: the index of the first seat of that player.
unfoldable pub player_index : ℕ → List PlayerInfo → Option ℕ
player_index cuid [] = none
player_index cuid (p ∷ ps) =
    if p.cuid == cuid
    then some 0
    else elim (player_index cuid ps) [ none ↦ none | some i ↦ some (suc i) ]

-- `getEmptySeatIndex`: `none` for `NO_POS`.
unfoldable pub get_empty_seat_index : List PlayerInfo → Option ℕ
get_empty_seat_index [] = none
get_empty_seat_index (p ∷ ps) =
    if p.cuid == 0
    then some 0
    else elim (get_empty_seat_index ps) [ none ↦ none | some i ↦ some (suc i) ]

abbrev pub update_at : ℕ → (PlayerInfo → PlayerInfo) → List PlayerInfo → List PlayerInfo
update_at i f [] = []
update_at zero f (p ∷ ps) = f p ∷ ps
update_at (suc i) f (p ∷ ps) = p ∷ update_at i f ps

-- `info.vote = VT_NONE` for each player.
unfoldable pub clear_votes : List PlayerInfo → List PlayerInfo
clear_votes = map {A = PlayerInfo} {B = PlayerInfo} (λ p. record p { vote = no_vote })
