-- ===== src/Game13/Handlers.antt =====
-- The handlers of the clients' messages, and the timer (game13.cpp, room.cpp).
use casual_game.Prelude.{
  ℕ, zero, suc, ◌-◌, ◌%◌, ◌^◌, Bool, not, ◌||◌, Option, none, some, List, [], ◌∷◌, length, map, leb,
  ◌==◌, if◌then◌else◌, ◌>>=◌,
}
use casual_game.Game13.Table.{
  Client, update_client, after_leave_room, Status, is_ready, is_sort, Vote, no_vote, aye,
  PlayerInfo, GameStatus, Session, with_game, player_index, update_at, clear_votes,
}
use casual_game.Game13.Actions.{
  is_prepare, is_play, is_vote, is_settle, remove_player, abort_game, check_all_votes,
}
use casual_game.Game13.Dealing.{try_start_round}
use casual_game.Game13.Settling.{try_settle_game}

-- `MAX_VOTE_DURATION`, and the stay after the last round, in seconds.
abbrev pub max_vote_duration : ℕ
max_vote_duration = 300

abbrev pub settle_all_duration : ℕ
settle_all_duration = 120

-- The body of `proto_C_G13_GiveUp` in the game of the client; `now` is the room timer's time.
unfoldable pub give_up_at : ℕ → Client → ℕ → Session → Session
give_up_at now c i s = elim s.game.status [
  | GameStatus.prepare ↦ if c.cuid == s.game.owner_cuid then abort_game s else remove_player c s
  | GameStatus.play ↦
      let started = record (s.game) {
        start_vote_time = now;
        vote_sponsor_cuid = c.cuid;
        status = GameStatus.vote;
        players = update_at i (λ p. record p { vote = aye }) s.game.players;
      } in
      check_all_votes (with_game s started)
  | GameStatus.vote ↦ check_all_votes (
      with_game s
        (record (s.game) { players = update_at i (λ p. record p { vote = aye }) s.game.players }))
  | GameStatus.settle ↦ s
  | GameStatus.settle_all ↦ remove_player c s
  | GameStatus.closed ↦ remove_player c s
]

unfoldable pub give_up : ℕ → Client → Session → Session
unfolding give_up_at
give_up now c s = elim (player_index c.cuid s.game.players) [
  | none ↦ s
  | some i ↦ give_up_at now c i s
]

-- The body of `proto_C_G13_VoteFoAbortGame`.
unfoldable pub vote_for_abort : Vote → Client → Session → Session
vote_for_abort v c s =
    if not (is_vote s.game.status) then s else elim (player_index c.cuid s.game.players) [
      | none ↦ record s { clients = update_client c.cuid after_leave_room s.clients }
      | some i ↦
          let voted = with_game s (record (s.game) {
            players = update_at i (λ p. record p { vote = v }) s.game.players;
          }) in
          elim v [ no_vote ↦ voted | _ ↦ check_all_votes voted ]
    ]

-- The status of the seat `i`.
abbrev pub status_at : ℕ → List PlayerInfo → Status
status_at i [] = Status.no_status
status_at zero (p ∷ ps) = p.status
status_at (suc i) (p ∷ ps) = status_at i ps

module _ (shuffle : List ℕ → List ℕ) where
  -- The body of `proto_C_G13_ReadyFlag`.
  unfoldable pub ready_flag : Bool → Client → Session → Option Session
  ready_flag ready c s =
      if not (is_prepare s.game.status) then some s else elim (player_index c.cuid s.game.players) [
        | none ↦ some (record s { clients = update_client c.cuid after_leave_room s.clients })
        | some i ↦
            let old_ready = is_ready (status_at i s.game.players) in
            let set_to = λ (t : Status). with_game s (record (s.game) {
              players = update_at i (λ p. record p { status = t }) s.game.players;
            }) in
            if ready
            then (if old_ready then some s else try_start_round shuffle (set_to Status.ready))
            else some (set_to Status.prep)
      ]

  -- The body of `proto_C_G13_BringOut`; a card of the message is cut to 16 bits. Nothing is asked of
  -- the cards but their number.
  unfoldable pub bring_out : ℕ → List ℕ → Client → Session → Option Session
  bring_out now cards c s =
      if not (is_play s.game.status) then some s else elim (player_index c.cuid s.game.players) [
        | none ↦ some (record s { clients = update_client c.cuid after_leave_room s.clients })
        | some i ↦
            if not (is_sort (status_at i s.game.players)) || not (length cards == 13)
            then some s
            else let brought = λ (p : PlayerInfo). record p {
              status = Status.compare;
              cards = map (λ card. card % 2 ^ 16) cards;
            } in
              do
                settled ←
                    try_settle_game now (
                      with_game s
                        (record (s.game) { players = update_at i brought s.game.players }))
                if is_settle settled.game.status
                    then try_start_round shuffle settled
                    else some settled
      ]

  -- `timerExec` of one game at the time `now`.
  unfoldable pub timer_exec : ℕ → Session → Option Session
  timer_exec now s = elim s.game.status [
    | GameStatus.prepare ↦ try_start_round shuffle s
    | GameStatus.play ↦ some s
    | GameStatus.vote ↦ some (
        if leb max_vote_duration (now - s.game.start_vote_time)
        then abort_game (
            with_game s
              (record (s.game) { players = clear_votes s.game.players; start_vote_time = 0 }))
        else s)
    | GameStatus.settle ↦ some s
    | GameStatus.settle_all ↦ some (
        if leb settle_all_duration (now - s.game.settle_all_time)
        then abort_game (with_game s (record (s.game) { settle_all_time = 0 }))
        else s)
    | GameStatus.closed ↦ some (with_game s (record (s.game) { id = 0 }))
  ]
