-- ===== src/Tests/Rounds.antt =====
-- Rounds of two players.
use casual_game.Prelude.{ℕ, ◌≡◌, refl, true, some, none, List, [], ◌∷◌, arith, length}
use casual_game.Prelude.Int.{pos, negsuc, ◌+ℤ◌, ◌-ℤ◌, ◌*ℤ◌}
use casual_game.Deck.Cards.{are_cards}
use casual_game.Deck.Brands.{Brand, BrandInfo, cmp_brand_info}
use casual_game.Deck.Special.{SpecialBrand}
use casual_game.Game13.Round.{
  Rules, PlayerData, players_data, player_data, calc_datas, calc_round, blank,
}
use casual_game.Deck.Row5.{brand_info}
use casual_game.Game13.Round.Totals.{total}
use casual_game.Game13.Round.ZeroSum.{calc_round-zero_sum}
use casual_game.Game13.Round.TwoPlayers.{
  table, prizes, winnings, two_players-rows, two_players-special,
}

abbrev rules : Rules
rules = record { da_qiang = 3; quan_lei_da = true; player_size = 2 }

abbrev fives : BrandInfo
fives = record { b = Brand.five_of_kind; point = 5 }

abbrev threes : BrandInfo
threes = record { b = Brand.three_of_kind; point = 5 }

abbrev strong : PlayerData
strong = record blank { dun0 = threes; dun1 = fives; dun2 = fives }

abbrev dragon : PlayerData
dragon = record blank { spec = SpecialBrand.flush_straight }

-- The first wins 3 + 20 + 10, doubled.
strong_wins : winnings strong blank ≡ pos 66
unfolding cmp_brand_info ◌+ℤ◌ ◌*ℤ◌
strong_wins = refl

-- The second wins as much, and it is not doubled.
strong_second : winnings blank strong ≡ negsuc 32
unfolding cmp_brand_info ◌+ℤ◌ ◌-ℤ◌
strong_second = refl

two_players-rows_example :
    prizes (calc_datas rules (table strong blank))
    ≡ winnings strong blank ∷ (pos 0 -ℤ winnings strong blank) ∷ []
two_players-rows_example = two_players-rows rules strong blank refl (omega arith)

two_players-special_example : prizes (calc_datas rules (table dragon blank)) ≡ pos 0 ∷ pos 0 ∷ []
two_players-special_example = two_players-special rules dragon blank refl

abbrev diamonds : List ℕ
diamonds = 1 ∷ 2 ∷ 3 ∷ 4 ∷ 5 ∷ 6 ∷ 7 ∷ 8 ∷ 9 ∷ 10 ∷ 11 ∷ 12 ∷ 13 ∷ []

abbrev clubs : List ℕ
clubs = 14 ∷ 15 ∷ 16 ∷ 17 ∷ 18 ∷ 19 ∷ 20 ∷ 21 ∷ 22 ∷ 23 ∷ 24 ∷ 25 ∷ 26 ∷ []

abbrev dealt : List (ℕ × List ℕ)
dealt = (1, diamonds) ∷ (2, clubs) ∷ []

abbrev settled : List PlayerData
settled = elim (calc_round rules dealt) [ none ↦ [] | some datas ↦ datas ]

calc_round-zero_sum_example : (total settled ≡ pos 0) × (length settled ≡ length dealt)
unfolding calc_round players_data player_data brand_info are_cards
calc_round-zero_sum_example = calc_round-zero_sum rules dealt refl
