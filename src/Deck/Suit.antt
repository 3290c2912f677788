-- ===== src/Deck/Suit.antt =====
-- The suits (enum `Suit` of processes/lobby/deck.h), by their values.
use casual_game.Prelude.{ℕ}

abbrev pub spade : ℕ
spade = 3

abbrev pub heart : ℕ
heart = 2

abbrev pub club : ℕ
club = 1

abbrev pub diamond : ℕ
diamond = 0
