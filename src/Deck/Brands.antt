-- ===== src/Deck/Brands.antt =====
-- Brands of rows, and the comparison of two rows (deck.h).
use casual_game.Prelude.{ℕ, Bool, not, ◌==◌, ltb, if◌then◌else◌}

pub data Brand : Type 0 where
  five_of_kind straight_flush four_of_kind full_house flush straight three_of_kind two_pairs
        one_pair hight_card :
      Brand

-- The value of the enumerator.
abbrev pub brand_value : Brand → ℕ
brand_value five_of_kind = 9
brand_value straight_flush = 8
brand_value four_of_kind = 7
brand_value full_house = 6
brand_value flush = 5
brand_value straight = 4
brand_value three_of_kind = 3
brand_value two_pairs = 2
brand_value one_pair = 1
brand_value hight_card = 0

abbrev pub same_brand : Brand → Brand → Bool
same_brand a b = brand_value a == brand_value b

-- `point` is an `int32_t` that is never negative.
pub record BrandInfo : Type 0 where
  pub b : Brand
  pub point : ℕ

-- 0 equal, 1 the first is larger, 2 the second is larger.
unfoldable pub cmp_brand_info : BrandInfo → BrandInfo → ℕ
cmp_brand_info x y =
    if not (same_brand x.b y.b)
    then (if ltb (brand_value y.b) (brand_value x.b) then 1 else 2)
    else if not (x.point == y.point)
    then (if ltb y.point x.point then 1 else 2)
    else 0
