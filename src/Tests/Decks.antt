-- ===== src/Tests/Decks.antt =====
-- Rows from the table `dunArr` of processes/lobby/deck.cpp.
use casual_game.Prelude.{ℕ, ◌<◌, ◌^◌, ◌≡◌, ◌↔◌, refl, List, [], ◌∷◌, arith}
use casual_game.Deck.Cards.{are_cards, sort_cards, rank, suit, less_card}
use casual_game.Deck.Brands.{Brand, BrandInfo, brand_value, cmp_brand_info}
use casual_game.Deck.Row3.{row3, brand3, brand_info3}
use casual_game.Deck.Row5.{
  row5, brand5, brand_info5, is_straight, is_flush, pair_brand, four_point, full_point,
}
use casual_game.Deck.Shape.{rules_brand5}
use casual_game.Deck.Rules.{brand5-rules}
use casual_game.Deck.Agreement.{brand_info-b}
use casual_game.Deck.Strength.{
  hight_card-compare, cmp_digits, high_to_low, ◌≻◌, cmp_brand_info-order, pair3_low_kicker_wins,
  point-bounds,
}

abbrev wheel : List ℕ
wheel = 27 ∷ 28 ∷ 29 ∷ 30 ∷ 39 ∷ []

abbrev full : List ℕ
full = 1 ∷ 40 ∷ 11 ∷ 24 ∷ 50 ∷ []

abbrev high : List ℕ
high = 1 ∷ 2 ∷ 3 ∷ 4 ∷ 37 ∷ []

abbrev higher : List ℕ
higher = 51 ∷ 2 ∷ 4 ∷ 3 ∷ 14 ∷ []

wheel_brand : brand5 wheel ≡ Brand.straight_flush
unfolding brand5 row5 sort_cards less_card rank suit is_straight is_flush
wheel_brand = refl

full_info : brand_info5 full ≡ record { b = Brand.full_house; point = 11 }
unfolding brand_info5 row5 sort_cards less_card rank suit is_straight is_flush four_point full_point
full_info = refl

brand5-rules_example : brand5 full ≡ rules_brand5 full
unfolding are_cards
brand5-rules_example = brand5-rules full refl refl

brand_info-b_example : ((brand_info5 high).b ≡ brand5 high) × ((brand_info3 high).b ≡ brand3 high)
brand_info-b_example = brand_info-b high

hight_card-compare_example :
    cmp_brand_info (brand_info5 high) (brand_info5 higher)
    ≡ cmp_digits (high_to_low (row5 high)) (high_to_low (row5 higher))
unfolding brand5 row5 sort_cards less_card rank suit is_straight is_flush pair_brand
hight_card-compare_example = hight_card-compare high higher refl refl

abbrev point_2 : BrandInfo
point_2 = record { b = Brand.one_pair; point = 2 }

abbrev point_1 : BrandInfo
point_1 = record { b = Brand.one_pair; point = 1 }

cmp_brand_info-order_example :
    ((cmp_brand_info point_2 point_1 ≡ 1) ↔ (point_2 ≻ point_1))
    × ((cmp_brand_info point_2 point_1 ≡ 2) ↔ (point_1 ≻ point_2))
    × ((cmp_brand_info point_2 point_1 ≡ 0)
        ↔ (brand_value point_2.b ≡ brand_value point_1.b) × (point_2.point ≡ point_1.point))
    × (cmp_brand_info point_2 point_1 ≡ 1
        → cmp_brand_info point_1 point_1 ≡ 1
        → cmp_brand_info point_2 point_1 ≡ 1)
cmp_brand_info-order_example = cmp_brand_info-order point_2 point_1 point_1

-- A pair of threes over a two against a pair of kings under an ace.
pair3_low_kicker_wins_example :
    cmp_brand_info (brand_info3 (1 ∷ 2 ∷ 15 ∷ [])) (brand_info3 (12 ∷ 25 ∷ 13 ∷ [])) ≡ 1
unfolding row3 sort_cards less_card rank suit
pair3_low_kicker_wins_example =
    pair3_low_kicker_wins (1 ∷ 2 ∷ 15 ∷ []) (12 ∷ 25 ∷ 13 ∷ []) (omega arith) refl refl
      (omega arith)

point-bounds_example : ((brand_info5 full).point < 2 ^ 27) × ((brand_info3 full).point < 2 ^ 20)
point-bounds_example = point-bounds full
