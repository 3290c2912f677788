-- ===== src/Game13/Entering.antt =====
-- Who has a seat after `enterRoom` (game13.cpp).
use casual_game.Prelude.{ℕ, ◌+◌, List, [], ◌∷◌, ◌==◌, if◌then◌else◌}
use casual_game.Game13.Table.{PlayerInfo}

-- The number of seats that the player `cuid` has.
abbrev pub seats_of : ℕ → List PlayerInfo → ℕ
seats_of cuid [] = 0
seats_of cuid (p ∷ ps) = (if p.cuid == cuid then 1 else 0) + seats_of cuid ps
