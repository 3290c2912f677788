-- ===== src/Deck/Rank.antt =====
-- The ranks that the rules name (enum `Rank` of processes/lobby/deck.h), by their values.
use casual_game.Prelude.{ℕ}

abbrev pub r2 : ℕ
r2 = 0

abbrev pub r3 : ℕ
r3 = 1

abbrev pub r4 : ℕ
r4 = 2

abbrev pub r5 : ℕ
r5 = 3

abbrev pub r8 : ℕ
r8 = 6

abbrev pub jack : ℕ
jack = 9

abbrev pub ace : ℕ
ace = 12
