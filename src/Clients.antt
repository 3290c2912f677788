-- ===== src/Clients.antt =====
-- `ClientManager` of the lobby (processes/lobby/client_manager.cpp): its three maps and the login. An
-- open id is a number here; of a client only its keys matter, which change only while no map has it.
pub mod Consistent
pub mod Login
pub mod Taken
use casual_game.Prelude.{
  ℕ, ◌+◌, ◌%◌, ◌^◌, Bool, true, false, not, Option, none, some, List, [], ◌∷◌, if◌then◌else◌,
}
use casual_game.Componet.FastTravelMap.{FastTravelMap, find}
use casual_game.Componet.FastTravelMap

pub record Player : Type 0 where
  pub openid : ℕ
  pub cuid : ℕ
  pub ccid : ℕ

pub record Manager : Type 0 where
  pub openid2_clients : FastTravelMap Player
  pub cuid2_clients : FastTravelMap Player
  pub ccid2_clients : FastTravelMap Player
  pub unique_id_counter : ℕ

unfoldable pub insert : Player → Manager → Manager × Bool
insert c m =
    let (by_openid, free_openid) = FastTravelMap.insert c.openid c m.openid2_clients in
    let (by_cuid, free_cuid) = FastTravelMap.insert c.cuid c m.cuid2_clients in
    let (by_ccid, free_ccid) = FastTravelMap.insert c.ccid c m.ccid2_clients in
    if not free_openid
    then (record m { openid2_clients = by_openid }, false)
    else if not free_cuid
    then (
      record m {
        openid2_clients = FastTravelMap.erase c.openid by_openid;
        cuid2_clients = by_cuid;
      },
      false,
    )
    else if not free_ccid
    then (
      record m {
        openid2_clients = FastTravelMap.erase c.openid by_openid;
        cuid2_clients = FastTravelMap.erase c.cuid by_cuid;
        ccid2_clients = by_ccid;
      },
      false,
    )
    else (
      record m { openid2_clients = by_openid; cuid2_clients = by_cuid; ccid2_clients = by_ccid },
      true,
    )

unfoldable pub erase : Player → Manager → Manager
erase c m = record m {
  openid2_clients = FastTravelMap.erase c.openid m.openid2_clients;
  cuid2_clients = FastTravelMap.erase c.cuid m.cuid2_clients;
  ccid2_clients = FastTravelMap.erase c.ccid m.ccid2_clients;
}

unfoldable pub get_by_openid : ℕ → Manager → Option Player
get_by_openid openid m = find openid m.openid2_clients

-- The messages that a login sends to the gateway.
pub data Message : Type 0 where
  client_be_replaced reg_failed success : Player → Message

-- A login where the open id has no client: the database has none.
unfoldable pub login_new : ℕ → ℕ → Manager → Manager × List Message × Option Player
login_new openid ccid m =
    let cuid = (m.unique_id_counter + 1) % 2 ^ 32 in
    let c : Player = record { openid = openid; cuid = cuid; ccid = ccid } in
    let (m', inserted) = insert c (record m { unique_id_counter = cuid }) in
    if inserted then (m', success c ∷ [], some c) else (erase c m', reg_failed c ∷ [], none)

-- A login where the client is online.
unfoldable pub login_again : Player → ℕ → Manager → Manager × List Message × Option Player
login_again c ccid m =
    let c' = record c { ccid = ccid } in
    let (m', inserted) = insert c' (erase c m) in
    if inserted
    then (m', client_be_replaced c ∷ success c' ∷ [], some c')
    else (m', client_be_replaced c ∷ reg_failed c' ∷ success c' ∷ [], some c')

unfoldable pub login_with : Option Player → ℕ → ℕ → Manager → Manager × List Message × Option Player
login_with none openid ccid m = login_new openid ccid m
login_with (some c) openid ccid m = login_again c ccid m

-- `proto_LoginQuest`: the messages, and the client that comes online.
unfoldable pub login_quest : ℕ → ℕ → Manager → Manager × List Message × Option Player
login_quest openid ccid m = login_with (get_by_openid openid m) openid ccid m
