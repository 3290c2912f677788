-- ===== src/Game13/Invariant.antt =====
-- What holds of a game of game13.h between two steps: who is seated, who has voted, and how many
-- rounds are settled.
pub mod Seats
pub mod Steps
pub mod Votes
pub mod Rounds
pub mod Runs
use casual_game.Prelude.{ℕ, ◌+◌, ◌≡◌, ◌≤◌, ◌⊎◌, Bool, true, false, List, [], ◌∷◌, length}
use casual_game.Prelude.Int.{pos, ltb_ℤ}
use casual_game.Game13.Table.{PlayerInfo, no_vote, GameStatus, Game}
