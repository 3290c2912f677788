-- ===== src/Tests/Games.antt =====
-- Runs of the lobby.
use casual_game.Prelude.{
  ℕ, ◌≡◌, ◌≤◌, refl, true, false, some, none, Option, replicate, List, [], ◌∷◌, ◌++◌, arith,
}
use casual_game.Prelude.Int.{pos}
use casual_game.Game13.Table.{
  Client, Vote, PlayerInfo, empty_seat, GameStatus, Game, Session, get_by_ccid, get_by_cuid,
  update_client, set_room_id, get_empty_seat_index, player_index, with_game, enough_money,
  with_clients, add_money,
}
use casual_game.Game13.Actions.{enter_room, can_pay, check_all_votes, take_seat}
use casual_game.Game13.Dealing.{
  all_compare, start_round, try_start_round, may_start, init_deck, deal, deal_player, all_ready,
  is_online, sort_numbers, fee,
}
use casual_game.Game13.Handlers.{timer_exec, ready_flag}
use casual_game.Game13.Voting.{decided, check_all_votes-decided}
use casual_game.Game13.Hands.{IsShuffle, held, AllThirteen, start_round-deals}
use casual_game.Deck.Cards.{are_cards}
use casual_game.Deck.Row5.{brand_info}
use casual_game.Game13.Settling.{try_settle_game, final_counts, no_count}
use casual_game.Game13.Counts.{AllEven, rank_total, try_settle_game-final_counts}
use casual_game.Game13.Closing.{IsClosed, AllOut, timer_exec-closes}
use casual_game.Game13.Table.{Status}
use casual_game.Game13.Round.{calc_round, players_data, player_data}
use casual_game.Game13.Round.Faults.{is_some, all_cards, calc_round-is_some}
use casual_game.Game13.Invariant.Seats.{NoneVoted}
use casual_game.Game13.Actions.{is_vote}
use casual_game.Game13.Invariant.Steps.{IsSound}
use casual_game.Rooms.{
  Rooms, World, initial_world, CreateGame, get_room, create_game, join_game, handle_ready, new_game,
  in_own_room, timer_loop,
}
use casual_game.Rooms.Invariant.{Step, Reach, Reach-IsSound}
use casual_game.Rooms.Ticks.{before, behind, keys, timer_loop-erases}

abbrev unshuffled : List ℕ → List ℕ
unshuffled deck = deck

abbrev ann : Client
ann = record { ccid = 7; cuid = 1; room_id = 0; money = pos 100 }

abbrev bob : Client
bob = record { ccid = 8; cuid = 2; room_id = 0; money = pos 100 }

abbrev poor : Client
poor = record { ccid = 9; cuid = 3; room_id = 0; money = pos 1 }

abbrev for_two : CreateGame
for_two = record {
  player_size = 2;
  play_type = 52;
  rounds = pos 8;
  payor = 11;
  da_qiang = 3;
  quan_lei_da = true;
  yi_tiao_long = 2;
}

abbrev or_else : World → Option World → World
or_else w none = w
or_else w (some v) = v

abbrev opened : World
opened = record initial_world { clients = ann ∷ bob ∷ [] }

abbrev with_ann : World
with_ann = or_else opened (create_game for_two 7 opened)

abbrev with_both : World
with_both = or_else with_ann (join_game 100001 8 with_ann)

abbrev ann_ready : World
ann_ready = or_else with_both (handle_ready unshuffled true 7 with_both)

abbrev both_ready : World
both_ready = or_else ann_ready (handle_ready unshuffled true 8 ann_ready)

abbrev some_game : Game
some_game = new_game 5 1 for_two

abbrev game_of : Option Game → Game
game_of none = some_game
game_of (some g) = g

-- Two players have come in and are ready: the first round is on.
Reach-IsSound_example : IsSound (game_of (get_room 100001 both_ready.rooms))
unfolding create_game join_game get_room in_own_room ready_flag try_start_round may_start
    start_round init_deck deal deal_player with_game all_ready is_online get_by_ccid get_by_cuid
    player_index sort_numbers enter_room get_empty_seat_index new_game fee enough_money can_pay
    with_clients update_client set_room_id take_seat add_money
Reach-IsSound_example =
    Reach-IsSound unshuffled {w = both_ready} 100001
      (Reach.then_step
        (Reach.then_step
          (Reach.then_step
            (Reach.then_step
              (Reach.then_step Reach.start (Step.clients_changed initial_world (ann ∷ bob ∷ [])))
              (Step.created {w = opened} {v = with_ann} for_two 7 refl))
            (Step.joined {w = with_ann} {v = with_both} 100001 8 refl))
          (Step.readied {w = with_both} {v = ann_ready} true 7 refl))
        (Step.readied {w = ann_ready} {v = both_ready} true 8 refl))
      refl

is_shuffle : IsShuffle unshuffled
is_shuffle = record { size = λ xs. refl; cards = λ x xs. refl }

abbrev seat : ℕ → Vote → PlayerInfo
seat cuid v = record empty_seat { cuid = cuid; vote = v }

abbrev voting : Session
voting = record {
  clients = ann ∷ bob ∷ [];
  deck = [];
  game = record some_game {
    players = seat 1 Vote.aye ∷ seat 2 Vote.nay ∷ [];
    status = GameStatus.vote;
  };
}

check_all_votes-decided_example :
    ((check_all_votes voting).game.status ≡ decided voting.game.players)
    × (is_vote (check_all_votes voting).game.status ≡ false
        → NoneVoted (check_all_votes voting).game.players)
check_all_votes-decided_example =
    check_all_votes-decided voting refl
      (λ e. absurd (omega (arith, e)), (λ e. absurd (omega (arith, e)), tt))

start_round-deals_example :
    (t : Session) × (start_round unshuffled voting ≡ some t)
    × ((x : ℕ) → held x t.game.players ≤ 1)
    × AllThirteen t.game.players
unfolding new_game
start_round-deals_example = start_round-deals unshuffled voting is_shuffle refl (omega arith)

abbrev waiting : Session
waiting = record { clients = poor ∷ []; deck = []; game = some_game }

abbrev three_rooms : Rooms
three_rooms =
    (5, record some_game { status = GameStatus.play })
    ∷ (6, record some_game { id = 0 })
    ∷ (9, some_game)
    ∷ []

timer_loop-erases_example :
    (front : Rooms) × ((5, record some_game { status = GameStatus.play }) ∷ (9, some_game) ∷ []
      ≡ front ++ behind three_rooms)
    × (keys front ≡ keys (before three_rooms))
unfolding timer_loop new_game timer_exec
timer_loop-erases_example =
    timer_loop-erases unshuffled 100 three_rooms [] []
      {r = ((5, record some_game { status = GameStatus.play }) ∷ (9, some_game) ∷ [], ([], []))}
      refl

abbrev brought : List (ℕ × List ℕ)
brought =
    (1, 1 ∷ 2 ∷ 3 ∷ 4 ∷ 5 ∷ 6 ∷ 7 ∷ 8 ∷ 9 ∷ 10 ∷ 11 ∷ 12 ∷ 13 ∷ [])
    ∷ (2, 14 ∷ 2 ∷ 3 ∷ 4 ∷ 5 ∷ 6 ∷ 7 ∷ 8 ∷ 9 ∷ 10 ∷ 11 ∷ 12 ∷ 60 ∷ [])
    ∷ []

calc_round-is_some_example :
    is_some (calc_round (record { da_qiang = 3; quan_lei_da = true; player_size = 2 }) brought)
    ≡ all_cards brought
calc_round-is_some_example =
    calc_round-is_some (record { da_qiang = 3; quan_lei_da = true; player_size = 2 }) brought
      (refl, (refl, tt))

abbrev at_odds : Session
at_odds = record voting { game = record (voting.game) { start_vote_time = 50 } }

timer_exec-closes_example :
    (t : Session) × (timer_exec unshuffled 350 at_odds ≡ some t)
    × IsClosed t.game
    × AllOut at_odds.game.players t.clients
unfolding new_game
timer_exec-closes_example = timer_exec-closes unshuffled 350 at_odds refl

abbrev shows : ℕ → List ℕ → PlayerInfo
shows cuid cards = record empty_seat { cuid = cuid; status = Status.compare; cards = cards }

abbrev playing : Session
playing = record voting {
  game = record (voting.game) {
    status = GameStatus.play;
    rounds = 1;
    players =
        shows 1 (1 ∷ 2 ∷ 3 ∷ 4 ∷ 5 ∷ 6 ∷ 7 ∷ 8 ∷ 9 ∷ 10 ∷ 11 ∷ 12 ∷ 13 ∷ [])
        ∷ shows 2 (14 ∷ 15 ∷ 16 ∷ 17 ∷ 18 ∷ 19 ∷ 20 ∷ 21 ∷ 22 ∷ 23 ∷ 24 ∷ 25 ∷ 26 ∷ [])
        ∷ [];
  };
}

abbrev session_or : Session → Option Session → Session
session_or s none = s
session_or s (some t) = t

abbrev settled : Session
settled = session_or playing (try_settle_game 100 playing)

try_settle_game-final_counts_example :
    AllEven 2 settled.game.settle_data
    × (rank_total (final_counts settled.game.settle_data (replicate 2 no_count)) ≡ pos 0)
unfolding try_settle_game calc_round players_data player_data brand_info are_cards all_compare
    new_game
try_settle_game-final_counts_example = try_settle_game-final_counts 100 playing settled tt refl
