-- ===== src/Deck/Special.antt =====
-- Special brands of thirteen cards (deck.h, deck.cpp): by the three rows, and by all the cards.
use casual_game.Prelude.{
  ℕ, zero, suc, ◌+◌, ◌-◌, Bool, true, false, not, ◌&&◌, ◌||◌, List, [], ◌∷◌, map, ltb, leb, ◌==◌,
  get_or, take, if◌then◌else◌,
}
use casual_game.Deck.Cards.{rank, suit, sort_cards}
use casual_game.Deck.Suit
use casual_game.Deck.Rank
use casual_game.Deck.Brands.{Brand, straight_flush, flush, same_brand}
use casual_game.Deck.Row5.{consecutive, all_same}

pub data SpecialBrand : Type 0 where
  flush_straight straight royal triple_straight_flush triple_bombs all_big all_little red_or_black
        qurad_three_of_kind penta_pairs_and_three_of_kind six_pairs triple_straight triple_flush
        none :
      SpecialBrand

-- The value of the enumerator; specials compare by its last digit.
abbrev pub special_value : SpecialBrand → ℕ
special_value flush_straight = 135
special_value SpecialBrand.straight = 124
special_value royal = 113
special_value triple_straight_flush = 103
special_value triple_bombs = 93
special_value all_big = 82
special_value all_little = 72
special_value red_or_black = 62
special_value qurad_three_of_kind = 52
special_value penta_pairs_and_three_of_kind = 42
special_value six_pairs = 32
special_value triple_straight = 22
special_value triple_flush = 12
special_value SpecialBrand.none = 0

abbrev pub same_special : SpecialBrand → SpecialBrand → Bool
same_special a b = special_value a == special_value b

-- `g13SpecialBrandByDun`: `c` starts with the first row, `b2` and `b3` are the brands of the others.
unfoldable pub special_by_dun : List ℕ → Brand → Brand → SpecialBrand
special_by_dun c b2 b3 =
    let s = sort_cards (take 3 c) in
    let is_straight =
      (rank (get_or s 0 0) == rank (get_or s 1 0))
      && (rank (get_or s 1 0) == rank (get_or s 2 0)) in
    let is_flush =
      (suit (get_or s 0 0) == suit (get_or s 1 0))
      && (suit (get_or s 1 0) == suit (get_or s 2 0)) in
    if is_straight && (is_flush && (same_brand b2 straight_flush && same_brand b3 straight_flush))
    then triple_straight_flush
    else if is_straight && (same_brand b2 Brand.straight && same_brand b3 Brand.straight)
    then triple_straight
    else if is_flush && (same_brand b2 flush && same_brand b3 flush)
    then triple_flush
    else SpecialBrand.none

-- Three fours of a kind, the single card at place 0, 4, 8 or 12 of the sorted ranks.
unfoldable pub is_triple_bombs : (ℕ → ℕ) → Bool
is_triple_bombs r =
    ((r 1 == r 4) && ((r 5 == r 8) && (r 9 == r 12)))
    || (((r 0 == r 3) && ((r 5 == r 8) && (r 9 == r 12)))
        || (((r 0 == r 3) && ((r 4 == r 7) && (r 9 == r 12)))
            || ((r 0 == r 3) && ((r 4 == r 7) && (r 8 == r 11)))))

-- Four threes of a kind, the single card at place 0, 3, 6, 9 or 12.
unfoldable pub is_quad_threes : (ℕ → ℕ) → Bool
is_quad_threes r =
    ((r 1 == r 3) && ((r 4 == r 6) && ((r 7 == r 9) && (r 10 == r 12))))
    || (((r 0 == r 2) && ((r 4 == r 6) && ((r 7 == r 9) && (r 10 == r 12))))
        || (((r 0 == r 2) && ((r 3 == r 5) && ((r 7 == r 9) && (r 10 == r 12))))
            || (((r 0 == r 2) && ((r 3 == r 5) && ((r 6 == r 8) && (r 10 == r 12))))
                || ((r 0 == r 2) && ((r 3 == r 5) && ((r 6 == r 8) && (r 9 == r 11)))))))

-- The loop `allRed`, and the loop `allBlack`.
abbrev pub all_red : List ℕ → Bool
all_red [] = true
all_red (s ∷ ss) = ((s == Suit.heart) || (s == Suit.diamond)) && all_red ss

abbrev pub all_black : List ℕ → Bool
all_black [] = true
all_black (s ∷ ss) = ((s == Suit.spade) || (s == Suit.club)) && all_black ss

-- The loop that counts pairs and notes threes, from index `i`; it stops before the last card.
unfoldable pub pairs_loop : ℕ → (ℕ → ℕ) → ℕ → Bool → ℕ → Bool × ℕ
pairs_loop zero r i have3 pairs = (have3, pairs)
pairs_loop (suc fuel) r i have3 pairs = elim (ltb i 12) [
  | false ↦ (have3, pairs)
  | true ↦ elim (r (i - 1) == r i) [
    | false ↦ pairs_loop fuel r (i + 1) have3 pairs
    | true ↦ elim (r (i + 1) == r i) [
      | true ↦ pairs_loop fuel r (i + 3) true pairs
      | false ↦ pairs_loop fuel r (i + 2) have3 (pairs + 1)
    ]
  ]
]

-- The index starts at 1 and each round adds to it, so eleven rounds reach 12.
abbrev pub pairs_fuel : ℕ
pairs_fuel = 11

unfoldable pub special_by_pairs : (ℕ → ℕ) → SpecialBrand → SpecialBrand
unfolding pairs_loop
special_by_pairs r dun =
    let last = if (r 11 == r 12) && not (r 10 == r 12) then 1 else 0 in
    let (have3, pairs) = pairs_loop pairs_fuel r 1 false last in
    if have3 && (pairs == 5)
    then penta_pairs_and_three_of_kind
    else if pairs == 6
    then six_pairs
    else dun

-- `g13SpecialBrandByAll`.
unfoldable pub special_by_all : List ℕ → SpecialBrand → SpecialBrand
special_by_all c dun =
    let sorted = sort_cards c in
    let ranks = map rank sorted in
    let suits = map suit sorted in
    let r = λ (i : ℕ). get_or ranks i 0 in
    let is_straight = consecutive ranks in
    let is_flush = all_same suits in
    if is_straight && is_flush
    then SpecialBrand.flush_straight
    else if is_straight
    then SpecialBrand.straight
    else if leb Rank.jack (r 0)
    then royal
    else if same_special dun triple_straight_flush
    then dun
    else if is_triple_bombs r
    then triple_bombs
    else if leb Rank.r8 (r 0)
    then all_big
    else if leb (r 12) Rank.r8
    then all_little
    else if all_red suits || all_black suits
    then red_or_black
    else if is_quad_threes r
    then qurad_three_of_kind
    else special_by_pairs r dun

-- `g13SpecialBrand`.
unfoldable pub special_brand : List ℕ → Brand → Brand → SpecialBrand
special_brand c b2 b3 = special_by_all c (special_by_dun c b2 b3)
