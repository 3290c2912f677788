-- ===== src/Game13/Actions.antt =====
-- Entering, leaving, ending a game and voting on its end (game13.cpp).
use casual_game.Prelude.{
  ℕ, ◌+◌, Bool, true, false, not, ◌||◌, none, some, List, [], ◌∷◌, length, ◌==◌, if◌then◌else◌,
}
use casual_game.Prelude.Int.{pos}
use casual_game.Game13.Table.{
  Client, update_client, set_room_id, after_leave_room, enough_money, Status, no_vote, aye, nay,
  PlayerInfo, clear, GameStatus, Game, Session, with_clients, with_game, player_index,
  get_empty_seat_index, update_at, clear_votes, pay_banker, pay_share_equ, pay_winner,
}

abbrev pub is_prepare : GameStatus → Bool
is_prepare GameStatus.prepare = true
is_prepare _ = false

abbrev pub is_play : GameStatus → Bool
is_play GameStatus.play = true
is_play _ = false

abbrev pub is_vote : GameStatus → Bool
is_vote GameStatus.vote = true
is_vote _ = false

abbrev pub is_settle : GameStatus → Bool
is_settle GameStatus.settle = true
is_settle _ = false

-- The seat that an entering client takes.
unfoldable pub take_seat : Client → PlayerInfo → PlayerInfo
take_seat c p = record p { cuid = c.cuid; status = Status.prep; money = c.money }

-- The `switch` on the payer; `none` is its `default`.
unfoldable pub can_pay : Game → Client → Bool
can_pay g c =
    if g.attr.payor == pay_banker
    then not (g.owner_cuid == c.cuid) || enough_money c (pos 10)
    else if g.attr.payor == pay_share_equ
    then enough_money c (pos 5)
    else if g.attr.payor == pay_winner
    then enough_money c (pos 10)
    else false

-- `enterRoom`: the seat is written before the money is looked at.
unfoldable pub enter_room : Client → Session → Session × Bool
enter_room c s =
    if not (c.room_id == 0)
    then (s, c.room_id == s.game.id)
    else if not (is_prepare s.game.status)
    then (s, false)
    else elim (get_empty_seat_index s.game.players) [
      | none ↦ (s, false)
      | some i ↦
          let seated = record (s.game) { players = update_at i (take_seat c) s.game.players } in
          if not (can_pay seated c) then (with_game s seated, false) else (
            with_clients (with_game s seated)
                (update_client c.cuid (set_room_id seated.id) s.clients),
            true,
          )
    ]

-- `removePlayer`.
unfoldable pub remove_player : Client → Session → Session
remove_player c s = elim (player_index c.cuid s.game.players) [
  | none ↦ s
  | some i ↦
      with_clients (with_game s (record (s.game) { players = update_at i clear s.game.players }))
        (update_client c.cuid after_leave_room s.clients)
]

-- The loop of `abortGame` that sends everybody out.
unfoldable pub kick_all : List PlayerInfo → List Client → List Client
kick_all [] clients = clients
kick_all (p ∷ ps) clients = kick_all ps (update_client p.cuid after_leave_room clients)

-- `abortGame`; `destroyLater` sets the room's id to 0.
unfoldable pub abort_game : Session → Session
unfolding kick_all
abort_game s =
    with_clients
      (with_game s (record (s.game) { players = []; status = GameStatus.closed; id = 0 }))
      (kick_all s.game.players s.clients)

-- The loop of `checkAllVotes`: the ayes up to the first nay, and who said nay.
unfoldable pub count_votes : List PlayerInfo → ℕ → ℕ × ℕ
count_votes [] ayes = (ayes, 0)
count_votes (p ∷ ps) ayes = elim p.vote [
  | no_vote ↦ count_votes ps ayes
  | aye ↦ count_votes ps (ayes + 1)
  | nay ↦ (ayes, p.cuid)
]

-- `checkAllVotes`.
unfoldable pub check_all_votes : Session → Session
unfolding abort_game
check_all_votes s =
    if not (is_vote s.game.status)
    then s
    else let (ayes, opposition) = count_votes s.game.players 0 in
      let reset = record (s.game) {
        players = clear_votes s.game.players;
        start_vote_time = 0;
        vote_sponsor_cuid = 0;
      } in
      if not (opposition == 0)
      then with_game s (record reset { status = GameStatus.play })
      else if ayes == length s.game.players
      then abort_game (with_game s reset)
      else s
