-- ===== src/Deck/Strength.antt =====
-- What `point` and `cmpBrandInfo` (deck.h, deck.cpp) order: the comparison of rows, the range of the
-- points, and where the points of three cards go wrong.
use casual_game.Prelude.{
  ℕ, ◌+◌, ◌*◌, ◌^◌, ◌≤◌, ◌<◌, ◌≡◌, ◌↔◌, ◌∙◌, ◌⊎◌, inl, inr, not, List, [], ◌∷◌, arith, ltb, ◌==◌,
  if◌then◌else◌,
}
use casual_game.Deck.Cards.{rank}
use casual_game.Deck.Brands.{BrandInfo, cmp_brand_info, brand_value, hight_card}
use casual_game.Deck.Agreement.{brand_info-b}
use casual_game.Deck.Row3.{Row3, row3, brand_info3, brand_info3_of}
use casual_game.Deck.Row5.{
  Row5, row5, rtoi5, brand5, brand_info5, brand_info5_of, straight_point, four_point, full_point,
  three_point, two_pairs_point, pair_info, pair_point, flush_point, high_point,
}

infix 40 ◌≻◌
-- A row stands above another one: by its brand, or by its points within the brand.
abbrev pub ◌≻◌ : BrandInfo → BrandInfo → Type 0
x ≻ y =
    (brand_value y.b < brand_value x.b) ⊎ (brand_value y.b ≡ brand_value x.b) × (y.point < x.point)

-- The comparison is 1 exactly where the first row stands above the second, by its brand or by its points
-- within the brand, and 2 exactly where the second stands above the first; it is 0 exactly on rows of one
-- brand and point; and winning is transitive.
pub cmp_brand_info-order :
    (x y z : BrandInfo)
    → ((cmp_brand_info x y ≡ 1) ↔ (x ≻ y))
      × ((cmp_brand_info x y ≡ 2) ↔ (y ≻ x))
      × ((cmp_brand_info x y ≡ 0) ↔ (brand_value x.b ≡ brand_value y.b) × (x.point ≡ y.point))
      × (cmp_brand_info x y ≡ 1 → cmp_brand_info y z ≡ 1 → cmp_brand_info x z ≡ 1)
unfolding cmp_brand_info
cmp_brand_info-order x y z = ((first, above x y), (second, below x y), ground arith, trans x y z)
  where
    first : cmp_brand_info x y ≡ 1 → x ≻ y
    first h = grind arith

    second : cmp_brand_info x y ≡ 2 → y ≻ x
    second h = grind arith

    above : (x y : BrandInfo) → x ≻ y → cmp_brand_info x y ≡ 1
    above x y (inl h) = ground arith
    above x y (inr (h, k)) = ground arith

    below : (x y : BrandInfo) → y ≻ x → cmp_brand_info x y ≡ 2
    below x y (inl h) = ground arith
    below x y (inr (h, k)) = ground arith

    trans :
        (x y z : BrandInfo)
        → cmp_brand_info x y ≡ 1
        → cmp_brand_info y z ≡ 1
        → cmp_brand_info x z ≡ 1
    trans x y z h k = ground arith

-- A comparison has one of three results.
pub cmp_brand_info-le : (x y : BrandInfo) → cmp_brand_info x y ≤ 2
unfolding cmp_brand_info
cmp_brand_info-le x y = ground arith

rank-le : (x : ℕ) → rank x ≤ 12
unfolding rank
rank-le x = omega arith

record IsRanked (h : Row5) : Type 0 where
  b0 : h.r0 ≤ 12
  b1 : h.r1 ≤ 12
  b2 : h.r2 ≤ 12
  b3 : h.r3 ≤ 12
  b4 : h.r4 ≤ 12

row5-IsRanked : (c : List ℕ) → IsRanked (row5 c)
unfolding row5
row5-IsRanked c = record {
  b0 = rank-le _;
  b1 = rank-le _;
  b2 = rank-le _;
  b3 = rank-le _;
  b4 = rank-le _;
}

abbrev most : ℕ
most = 13 * 7529536 + 13 * 537824 + 13

module _ (h : Row5) (b : IsRanked h) where
  two_pairs_point-le : two_pairs_point h ≤ most
  unfolding two_pairs_point
  two_pairs_point-le = ground arith

  high_point-le : high_point h ≤ most
  unfolding high_point
  high_point-le = omega arith

  pair_points-le :
      (pair_point h 1 ≤ most)
      × (pair_point h 2 ≤ most)
      × (pair_point h 3 ≤ most)
      × (pair_point h 4 ≤ most)
  unfolding pair_point
  pair_points-le = (omega arith, omega arith, omega arith, omega arith)

  small_points :
      (straight_point h ≤ most)
      × (four_point h ≤ most)
      × (full_point h ≤ most)
      × (three_point h ≤ most)
  unfolding straight_point four_point full_point three_point
  small_points = (ground arith, ground arith, ground arith, ground arith)

  pair_info-le : (pair_info h).point ≤ most
  unfolding pair_info
  pair_info-le = ground (arith, high_point-le, pair_points-le)

  flush_point-le : flush_point h ≤ most
  unfolding flush_point
  flush_point-le = ground (arith, high_point-le, two_pairs_point-le, pair_points-le)

  brand_info5_of-le : (brand_info5_of h).point ≤ most
  unfolding brand_info5_of
  brand_info5_of-le = ground (arith, small_points, flush_point-le, two_pairs_point-le, pair_info-le)

brand_info3-le : (h : Row3) → h.r0 ≤ 12 → h.r1 ≤ 12 → h.r2 ≤ 12 → (brand_info3_of h).point ≤ 537838
unfolding brand_info3_of
brand_info3-le h b0 b1 b2 = ground arith

row3-le : (c : List ℕ) → ((row3 c).r0 ≤ 12) × ((row3 c).r1 ≤ 12) × ((row3 c).r2 ≤ 12)
unfolding row3
row3-le c = (rank-le _, rank-le _, rank-le _)

-- The points of rows of five are below 2^27 and those of rows of three below 2^20, whatever the cards:
-- they fit an `int32_t`.
pub point-bounds :
    (c : List ℕ) → ((brand_info5 c).point < 2 ^ 27) × ((brand_info3 c).point < 2 ^ 20)
unfolding brand_info5 brand_info3
point-bounds c = (
  omega (arith, brand_info5_of-le (row5 c) (row5-IsRanked c)),
  omega (arith, brand_info3-le (row3 c) (rank-le _) (rank-le _) (rank-le _)),
)

-- Digit by digit from the last, which is the highest card of a sorted row.
abbrev pub cmp_digits : List ℕ → List ℕ → ℕ
cmp_digits (x ∷ xs) (y ∷ ys) =
    let rest = cmp_digits xs ys in if x == y then rest else (if ltb y x then 1 else 2)
cmp_digits _ _ = 0

abbrev pub high_to_low : Row5 → List ℕ
high_to_low h = h.r4 ∷ h.r3 ∷ h.r2 ∷ h.r1 ∷ h.r0 ∷ []

pair_info-high : (h : Row5) → (pair_info h).b ≡ hight_card → (pair_info h).point ≡ high_point h
unfolding pair_info
pair_info-high h = ground arith

brand_info5_of-high :
    (h : Row5) → (brand_info5_of h).b ≡ hight_card → (brand_info5_of h).point ≡ high_point h
unfolding brand_info5_of
brand_info5_of-high h e = ground (arith, pair_info-high h)

abbrev cmp_points : ℕ → ℕ → ℕ
cmp_points p q = if not (p == q) then (if ltb q p then 1 else 2) else 0

mul_gap : (base x y : ℕ) → x < y → x * base + base ≤ y * base
mul_gap base x y h = grind arith

-- The points of the lowest two, three and four cards.
abbrev low2 : Row5 → ℕ
low2 h = rtoi5 h.r1 * 14 + rtoi5 h.r0

abbrev low3 : Row5 → ℕ
low3 h = rtoi5 h.r2 * 196 + low2 h

abbrev low4 : Row5 → ℕ
low4 h = rtoi5 h.r3 * 2744 + low3 h

-- The points, the highest card's digit first.
by_digits : (h : Row5) → high_point h ≡ rtoi5 h.r4 * 38416 + low4 h
unfolding high_point
by_digits h = omega arith

cmp_points_digit :
    (base x y p q : ℕ)
    → p < base
    → q < base
    → cmp_points (rtoi5 x * base + p) (rtoi5 y * base + q)
      ≡ (if x == y then cmp_points p q else (if ltb y x then 1 else 2))
cmp_points_digit base x y p q hp hq =
    ground (arith, mul_gap base (x + 1) (y + 1), mul_gap base (y + 1) (x + 1))

cmp_points_last :
    (x y : ℕ) → cmp_points (rtoi5 x) (rtoi5 y) ≡ (if x == y then 0 else (if ltb y x then 1 else 2))
cmp_points_last x y = ground arith

cmp_high_points :
    (h k : Row5)
    → IsRanked h
    → IsRanked k
    → cmp_points (high_point h) (high_point k) ≡ cmp_digits (high_to_low h) (high_to_low k)
cmp_high_points h k bh bk = rw (
  by_digits h,
  by_digits k,
  cmp_points_digit 38416 h.r4 k.r4 (low4 h) (low4 k) (omega arith) (omega arith),
  cmp_points_digit 2744 h.r3 k.r3 (low3 h) (low3 k) (omega arith) (omega arith),
  cmp_points_digit 196 h.r2 k.r2 (low2 h) (low2 k) (omega arith) (omega arith),
  cmp_points_digit 14 h.r1 k.r1 (rtoi5 h.r0) (rtoi5 k.r0) (omega arith) (omega arith),
  cmp_points_last h.r0 k.r0,
)

-- Two rows of five with nothing in them compare as the rules say: by the highest card, then the
-- next, down to the lowest.
pub hight_card-compare :
    (c d : List ℕ)
    → brand5 c ≡ hight_card
    → brand5 d ≡ hight_card
    → cmp_brand_info (brand_info5 c) (brand_info5 d)
      ≡ cmp_digits (high_to_low (row5 c)) (high_to_low (row5 d))
unfolding cmp_brand_info brand_info5
hight_card-compare c d ec ed =
    let bc = (brand_info-b c).0 ∙ ec in
    let bd = (brand_info-b d).0 ∙ ed in
    let pc = brand_info5_of-high (row5 c) bc in
    let pd = brand_info5_of-high (row5 d) bd in
    rw (bc, bd, pc, pd) (cmp_high_points (row5 c) (row5 d) (row5-IsRanked c) (row5-IsRanked d))

-- A pair of three cards with the third card below it has the larger point than any pair with the
-- third card above it, whatever the ranks of the two pairs.
pub pair3_low_kicker_wins :
    (c d : List ℕ)
    → (row3 c).r0 < (row3 c).r1
    → (row3 c).r1 ≡ (row3 c).r2
    → (row3 d).r0 ≡ (row3 d).r1
    → (row3 d).r1 < (row3 d).r2
    → cmp_brand_info (brand_info3 c) (brand_info3 d) ≡ 1
unfolding cmp_brand_info brand_info3
pair3_low_kicker_wins c d c0 c1 d0 d1 = ground (arith, row3-le d)
