-- ===== src/Deck/Row5.antt =====
-- Rows of five cards (deck.cpp): `brand5`, `brandInfo5`, and the dispatch on the size of a row.
use casual_game.Prelude.{
  ℕ, suc, ◌+◌, ◌-◌, ◌*◌, Bool, true, ◌&&◌, ◌||◌, Option, none, some, List, [], ◌∷◌, ltb, ◌==◌,
  get_or, if◌then◌else◌,
}
use casual_game.Deck.Cards.{rank, suit, sort_cards, are_cards}
use casual_game.Deck.Rank
use casual_game.Deck.Brands.{
  Brand, five_of_kind, straight_flush, four_of_kind, full_house, flush, straight, three_of_kind,
  two_pairs, one_pair, hight_card, BrandInfo,
}
use casual_game.Deck.Row3.{brand3, brand_info3}

-- The ranks and suits of the sorted cards; `c` points at five cards.
pub record Row5 : Type 0 where
  pub r0 : ℕ
  pub r1 : ℕ
  pub r2 : ℕ
  pub r3 : ℕ
  pub r4 : ℕ
  pub s0 : ℕ
  pub s1 : ℕ
  pub s2 : ℕ
  pub s3 : ℕ
  pub s4 : ℕ

unfoldable pub row5 : List ℕ → Row5
row5 c =
    let s = sort_cards c in
    record {
      r0 = rank (get_or s 0 0);
      r1 = rank (get_or s 1 0);
      r2 = rank (get_or s 2 0);
      r3 = rank (get_or s 3 0);
      r4 = rank (get_or s 4 0);
      s0 = suit (get_or s 0 0);
      s1 = suit (get_or s 1 0);
      s2 = suit (get_or s 2 0);
      s3 = suit (get_or s 3 0);
      s4 = suit (get_or s 4 0);
    }

-- The loops over neighbours that clear `isStright` and `isFlush`.
abbrev pub consecutive : List ℕ → Bool
consecutive (a ∷ b ∷ r) = (a + 1 == b) && consecutive (b ∷ r)
consecutive _ = true

abbrev pub all_same : List ℕ → Bool
all_same (a ∷ b ∷ r) = (a == b) && all_same (b ∷ r)
all_same _ = true

-- The index of the second card of the first pair, the search starting at `i`.
abbrev pub pair_index : ℕ → List ℕ → Option ℕ
pair_index i (a ∷ b ∷ r) = if a == b then some i else pair_index (suc i) (b ∷ r)
pair_index i _ = none

abbrev pub ranks5 : Row5 → List ℕ
ranks5 h = h.r0 ∷ h.r1 ∷ h.r2 ∷ h.r3 ∷ h.r4 ∷ []

abbrev pub suits5 : Row5 → List ℕ
suits5 h = h.s0 ∷ h.s1 ∷ h.s2 ∷ h.s3 ∷ h.s4 ∷ []

-- A2345.
unfoldable pub is_wheel : Row5 → Bool
is_wheel h =
    (h.r0 == Rank.r2)
    && ((h.r1 == Rank.r3) && ((h.r2 == Rank.r4) && ((h.r3 == Rank.r5) && (h.r4 == Rank.ace))))

unfoldable pub is_straight : Row5 → Bool
unfolding is_wheel
is_straight h = if is_wheel h then true else consecutive (ranks5 h)

unfoldable pub is_flush : Row5 → Bool
is_flush h = all_same (suits5 h)

-- The last loop of `brand5`.
unfoldable pub pair_brand : Row5 → Brand
pair_brand h = elim (pair_index 1 (ranks5 h)) [ some i ↦ one_pair | none ↦ hight_card ]

unfoldable pub brand5_of : Row5 → Brand
brand5_of h =
    if r0 == r4
    then five_of_kind
    else if is_straight h && is_flush h
    then straight_flush
    else if (r0 == r3) || (r1 == r4)
    then four_of_kind
    else if ((r0 == r2) && (r3 == r4)) || ((r2 == r4) && (r0 == r1))
    then full_house
    else if is_flush h
    then flush
    else if is_straight h
    then straight
    else if (r0 == r2) || ((r2 == r4) || (r1 == r3))
    then three_of_kind
    else if ((r0 == r1) && (r2 == r3)) || (((r0 == r1) && (r3 == r4)) || ((r1 == r2) && (r3 == r4)))
    then two_pairs
    else pair_brand h
  where
    open h use {r0, r1, r2, r3, r4}

unfoldable pub brand5 : List ℕ → Brand
unfolding brand5_of
brand5 c = brand5_of (row5 c)

-- `rtoi`: 1 for the two up to 13 for the ace.
abbrev pub rtoi5 : ℕ → ℕ
rtoi5 r = r + 1

-- The table of the powers of 14.
abbrev pub pow : ℕ → ℕ
pow i = get_or (1 ∷ 14 ∷ 196 ∷ 2744 ∷ 38416 ∷ 537824 ∷ 7529536 ∷ []) i 0

unfoldable pub straight_point : Row5 → ℕ
straight_point h = if h.r4 == Rank.ace then (if h.r0 == Rank.r2 then 14 else 15) else rtoi5 h.r4

-- The points of the shapes; 0 where the row has not the shape.
unfoldable pub four_point : Row5 → ℕ
four_point h = if h.r0 == h.r3 then rtoi5 h.r3 else if h.r1 == h.r4 then rtoi5 h.r4 else 0

unfoldable pub full_point : Row5 → ℕ
full_point h =
    if (h.r0 == h.r2) && (h.r3 == h.r4)
    then rtoi5 h.r2
    else if (h.r2 == h.r4) && (h.r0 == h.r1)
    then rtoi5 h.r4
    else 0

unfoldable pub three_point : Row5 → ℕ
three_point h =
    if h.r0 == h.r2
    then rtoi5 h.r2
    else if h.r1 == h.r3
    then rtoi5 h.r3
    else if h.r2 == h.r4
    then rtoi5 h.r4
    else 0

unfoldable pub two_pairs_point : Row5 → ℕ
two_pairs_point h =
    if (r0 == r1) && (r2 == r3)
    then rtoi5 r3 * pow 6 + rtoi5 r1 * pow 5 + rtoi5 r4
    else if (r0 == r1) && (r3 == r4)
    then rtoi5 r4 * pow 6 + rtoi5 r1 * pow 5 + rtoi5 r2
    else if (r1 == r2) && (r3 == r4)
    then rtoi5 r4 * pow 6 + rtoi5 r2 * pow 5 + rtoi5 r0
    else 0
  where
    open h use {r0, r1, r2, r3, r4}

-- The loop over the cards beside the pair whose second card stands at `pair`.
abbrev pub kickers : ℕ → ℕ → ℕ → List ℕ → ℕ
kickers pair i hight_counter [] = 0
kickers pair i hight_counter (r ∷ rs) =
    let skip = kickers pair (suc i) hight_counter rs in
    let add = rtoi5 r * pow hight_counter + kickers pair (suc i) (suc hight_counter) rs in
    if (i == pair) || (i == pair - 1) then skip else add

unfoldable pub pair_point : Row5 → ℕ → ℕ
pair_point h i = rtoi5 (get_or (ranks5 h) i 0) * pow 5 + kickers i 0 0 (ranks5 h)

-- The loop `point += rtoi(i) * pow[i]`.
abbrev pub high_points : ℕ → List ℕ → ℕ
high_points i [] = 0
high_points i (r ∷ rs) = rtoi5 r * pow i + high_points (suc i) rs

unfoldable pub high_point : Row5 → ℕ
high_point h = high_points 0 (ranks5 h)

-- The point of a flush: by two pairs, by a pair, or by the five cards.
unfoldable pub flush_point : Row5 → ℕ
unfolding two_pairs_point pair_point high_point
flush_point h =
    if ltb 0 (two_pairs_point h)
    then two_pairs_point h
    else elim (pair_index 1 (ranks5 h)) [ some i ↦ pair_point h i | none ↦ high_point h ]

unfoldable pub pair_info : Row5 → BrandInfo
unfolding pair_point high_point
pair_info h = elim (pair_index 1 (ranks5 h)) [
  | some i ↦ record { b = one_pair; point = pair_point h i }
  | none ↦ record { b = hight_card; point = high_point h }
]

unfoldable pub brand_info5_of : Row5 → BrandInfo
brand_info5_of h =
    if h.r0 == h.r4
    then record { b = five_of_kind; point = rtoi5 h.r0 }
    else if is_straight h && is_flush h
    then record { b = straight_flush; point = straight_point h }
    else if ltb 0 (four_point h)
    then record { b = four_of_kind; point = four_point h }
    else if ltb 0 (full_point h)
    then record { b = full_house; point = full_point h }
    else if is_flush h
    then record { b = flush; point = flush_point h }
    else if is_straight h
    then record { b = straight; point = straight_point h }
    else if ltb 0 (three_point h)
    then record { b = three_of_kind; point = three_point h }
    else if ltb 0 (two_pairs_point h)
    then record { b = two_pairs; point = two_pairs_point h }
    else pair_info h

unfoldable pub brand_info5 : List ℕ → BrandInfo
unfolding brand_info5_of
brand_info5 c = brand_info5_of (row5 c)

-- `Deck::brand`.
unfoldable pub brand : List ℕ → ℕ → Brand
brand c size = if size == 5 then brand5 c else if size == 3 then brand3 c else hight_card

-- `Deck::brandInfo` on a row of `size` cards: `none` where an assertion on a card ends the process.
-- The sort compares every card of the row, so every card is asserted.
unfoldable pub brand_info : List ℕ → ℕ → Option BrandInfo
brand_info c size =
    if size == 5
    then (if are_cards c then some (brand_info5 c) else none)
    else if size == 3
    then (if are_cards c then some (brand_info3 c) else none)
    else some (record { b = hight_card; point = 0 })
