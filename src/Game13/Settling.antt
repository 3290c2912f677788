-- ===== src/Game13/Settling.antt =====
-- `Game13::trySettleGame` (game13.cpp): the end of a round, and the final count of a game.
use casual_game.Prelude.{
  ℕ, ◌+◌, Bool, false, not, ◌||◌, Option, some, List, [], ◌∷◌, ◌++◌, length, ◌==◌, if◌then◌else◌,
  ◌>>=◌,
}
use casual_game.Prelude.Int.{ℤ, pos, ◌+ℤ◌, ltb_ℤ}
use casual_game.Game13.Round.{Losers, PlayerData, Rules, calc_round}
use casual_game.Game13.Table.{PlayerInfo, GameStatus, Game, Session, Attr}
use casual_game.Game13.Actions.{is_play}
use casual_game.Game13.Dealing.{all_compare}

-- The hands as they were brought out go to the settlement.
abbrev pub hands : List PlayerInfo → List (ℕ × List ℕ)
hands [] = []
hands (p ∷ ps) = (p.cuid, p.cards) ∷ hands ps

abbrev pub round_rules : Attr → Rules
round_rules a = record {
  da_qiang = a.da_qiang;
  quan_lei_da = a.quan_lei_da;
  player_size = a.player_size;
}

-- `curRound->players[i].cards = m_players[i].cards`: the order in which the cards were brought out.
abbrev pub restore_cards : List PlayerInfo → List PlayerData → List PlayerData
restore_cards (p ∷ ps) (d ∷ ds) = record d { cards = p.cards } ∷ restore_cards ps ds
restore_cards _ ds = ds

-- `m_rounds >= m_attr.rounds`, in signed numbers.
abbrev pub is_last_round : Game → Bool
is_last_round g = not (ltb_ℤ (pos g.rounds) g.attr.rounds)

-- `trySettleGame` at the time `now`; `none` where an assertion on a card ends the process.
unfoldable pub try_settle_game : ℕ → Session → Option Session
try_settle_game now s =
    if not (is_play s.game.status)
    then some s
    else if not (all_compare s.game.players)
    then some s
    else do
      round ← calc_round (round_rules s.game.attr) (hands s.game.players)
      let data' = s.game.settle_data ++ restore_cards s.game.players round ∷ []
      let g = record (s.game) { settle_data = data' }
      some (
          if is_last_round g
          then record s {
            game = record g { status = GameStatus.settle_all; settle_all_time = now };
          }
          else record s { game = record g { status = GameStatus.settle } })

-- `FinalCount`.
pub record FinalCount : Type 0 where
  pub cuid : ℕ
  pub win : ℕ
  pub daqiang : ℕ
  pub quanleida : ℕ
  pub rank : ℤ

abbrev pub no_count : FinalCount
no_count = record { cuid = 0; win = 0; daqiang = 0; quanleida = 0; rank = pos 0 }

-- `bool daqiang`, to which each flag is added: whether anybody was shot.
abbrev pub any_shot : Losers → Bool
any_shot [] = false
any_shot ((k, e) ∷ m) = not (e.shot == 0) || any_shot m

-- The body of the loop over the players of one round.
unfoldable pub count_round : FinalCount → PlayerData → FinalCount
count_round c d = record {
  cuid = d.cuid;
  win = c.win + length d.losers;
  daqiang = c.daqiang + (if any_shot d.losers then 1 else 0);
  quanleida = c.quanleida + (if d.quan_lei_da then 1 else 0);
  rank = c.rank +ℤ d.prize;
}

unfoldable pub count_players : List FinalCount → List PlayerData → List FinalCount
count_players (c ∷ cs) (d ∷ ds) = count_round c d ∷ count_players cs ds
count_players cs _ = cs

-- The loop over the rounds, from the counts of all players at nothing.
unfoldable pub final_counts : List (List PlayerData) → List FinalCount → List FinalCount
final_counts [] counts = counts
final_counts (round ∷ rounds) counts = final_counts rounds (count_players counts round)
