-- ===== src/Deck/Row3.antt =====
-- Rows of three cards (deck.cpp): `brand3` and `brandInfo3`.
use casual_game.Prelude.{ℕ, ◌+◌, ◌*◌, ◌||◌, List, ltb, ◌==◌, get_or, if◌then◌else◌}
use casual_game.Deck.Cards.{rank, sort_cards}
use casual_game.Deck.Brands.{Brand, three_of_kind, one_pair, hight_card, BrandInfo}

-- The ranks of the sorted cards; `c` points at three cards.
pub record Row3 : Type 0 where
  pub r0 : ℕ
  pub r1 : ℕ
  pub r2 : ℕ

unfoldable pub row3 : List ℕ → Row3
row3 c =
    let s = sort_cards c in
    record { r0 = rank (get_or s 0 0); r1 = rank (get_or s 1 0); r2 = rank (get_or s 2 0) }

unfoldable pub brand3_of : Row3 → Brand
brand3_of h =
    if r0 == r2 then three_of_kind else if r0 == r1 || r1 == r2 then one_pair else hight_card
  where
    open h use {r0, r1, r2}

unfoldable pub brand3 : List ℕ → Brand
unfolding brand3_of row3
brand3 c = brand3_of (row3 c)

-- `rtoi`: 2 for the two up to 14 for the ace.
abbrev pub rtoi3 : ℕ → ℕ
rtoi3 r = r + 2

-- The point of a pair, and 0 where there is none.
unfoldable pub pair_point3 : Row3 → ℕ
pair_point3 h =
    if r0 == r1
    then rtoi3 r1 * 2744 + rtoi3 r2
    else if r1 == r2
    then rtoi3 r2 * 38416 + rtoi3 r0
    else 0
  where
    open h use {r0, r1, r2}

unfoldable pub high_point3 : Row3 → ℕ
high_point3 h = rtoi3 h.r0 + rtoi3 h.r1 * 14 + rtoi3 h.r2 * 196

unfoldable pub brand_info3_of : Row3 → BrandInfo
unfolding pair_point3 high_point3
brand_info3_of h =
    if h.r0 == h.r2
    then record { b = three_of_kind; point = rtoi3 h.r2 }
    else if ltb 0 (pair_point3 h)
    then record { b = one_pair; point = pair_point3 h }
    else record { b = hight_card; point = high_point3 h }

unfoldable pub brand_info3 : List ℕ → BrandInfo
unfolding brand_info3_of row3
brand_info3 c = brand_info3_of (row3 c)
