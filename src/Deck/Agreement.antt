-- ===== src/Deck/Agreement.antt =====
-- `brandInfo3` and `brandInfo5` against `brand3` and `brand5` (deck.cpp): two routines that decide
-- the same brands, one by tests and one by the sign of a point.
use casual_game.Prelude.{
  ℕ, ◌≡◌, refl, Bool, true, false, ◌&&◌, ◌||◌, List, ltb, ◌==◌, if◌then◌else◌, arith,
}
use casual_game.Deck.Brands.{BrandInfo}
use casual_game.Deck.Row3.{Row3, row3, brand3, brand3_of, brand_info3, brand_info3_of}
use casual_game.Deck.Row5.{
  Row5, row5, brand5, brand5_of, brand_info5, brand_info5_of, four_point, full_point, three_point,
  two_pairs_point, pair_info, pair_brand,
}

four_point-pos : (h : Row5) → ltb 0 (four_point h) ≡ ((h.r0 == h.r3) || (h.r1 == h.r4))
unfolding four_point
four_point-pos h = ground arith

full_point-pos :
    (h : Row5)
    → ltb 0 (full_point h)
      ≡ (((h.r0 == h.r2) && (h.r3 == h.r4)) || ((h.r2 == h.r4) && (h.r0 == h.r1)))
unfolding full_point
full_point-pos h = ground arith

three_point-pos :
    (h : Row5) → ltb 0 (three_point h) ≡ ((h.r0 == h.r2) || ((h.r2 == h.r4) || (h.r1 == h.r3)))
unfolding three_point
three_point-pos h = ground arith

two_pairs_point-pos :
    (h : Row5)
    → ltb 0 (two_pairs_point h) ≡ (
        ((h.r0 == h.r1) && (h.r2 == h.r3))
        || (((h.r0 == h.r1) && (h.r3 == h.r4)) || ((h.r1 == h.r2) && (h.r3 == h.r4))))
unfolding two_pairs_point
two_pairs_point-pos h = ground arith

pair_info-b : (h : Row5) → (pair_info h).b ≡ pair_brand h
unfolding pair_info pair_brand
pair_info-b h = ground arith

if-b : (c : Bool) (x y : BrandInfo) → (if c then x else y).b ≡ (if c then x.b else y.b)
if-b true x y = refl
if-b false x y = refl

brand_info5_of-b : (h : Row5) → (brand_info5_of h).b ≡ brand5_of h
unfolding brand_info5_of brand5_of
brand_info5_of-b h =
    simp (if-b, four_point-pos, full_point-pos, three_point-pos, two_pairs_point-pos, pair_info-b)

brand_info3_of-b : (h : Row3) → (brand_info3_of h).b ≡ brand3_of h
unfolding brand_info3_of brand3_of
brand_info3_of-b h = ground arith

-- The two routines for five cards find the same brand, and so do the two for three cards.
pub brand_info-b : (c : List ℕ) → ((brand_info5 c).b ≡ brand5 c) × ((brand_info3 c).b ≡ brand3 c)
unfolding brand_info5 brand5 brand_info3 brand3
brand_info-b c = (brand_info5_of-b (row5 c), brand_info3_of-b (row3 c))
